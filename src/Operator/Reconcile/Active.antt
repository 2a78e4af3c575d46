-- ===== src/Operator/Reconcile/Active.antt =====
-- A call on an active workspace whose objects are accepted goes on to the claim.
use dev_plane.Base.{none, ◌≡◌, refl, ◌∙◌, on_false}
use dev_plane.Base.Result.{ok}
use dev_plane.Api.{Workspace}
use dev_plane.Platform.{Platform}
use dev_plane.Operator.Env.{Config, Request, ApiServer, Outcome, after}
use dev_plane.Operator.Ensure.{ensure_rbac, ensure_network_policies}
use dev_plane.Operator.Reconcile.{
  reconcile_pvc, reconcile_network, reconcile_rbac, reconcile_valid, reconcile_workspace, reconcile,
}
use dev_plane.Operator.Reconcile.Permitted.{IsActive}

module _ (k : Platform) (cfg : Config) (srv : ApiServer) (req : Request) (ws : Workspace) where
  -- An outcome behind the RBAC objects and the policies.
  abbrev pub secured : Outcome → Outcome
  secured out =
      after (ensure_rbac k cfg srv ws).0 (after (ensure_network_policies k cfg srv ws).0 out)

  rbac_secured :
      (ensure_rbac k cfg srv ws).1 ≡ none
      → (ensure_network_policies k cfg srv ws).1 ≡ none
      → reconcile_rbac k cfg srv req ws ≡ secured (reconcile_pvc k cfg srv req ws)
  unfolding reconcile_rbac reconcile_network
  rbac_secured r p = rw (r, reconcile_rbac) (rw (p, reconcile_network) refl)

  module _ (active : IsActive k cfg srv req ws) where
    active_valid : reconcile_valid k cfg srv req ws ≡ reconcile_rbac k cfg srv req ws
    unfolding reconcile_valid
    active_valid = rw (active.finalizer, active.live, reconcile_valid) refl

    active_workspace : reconcile_workspace k cfg srv req ws ≡ reconcile_rbac k cfg srv req ws
    unfolding reconcile_workspace
    active_workspace =
        on_false (λ out. out ≡ reconcile_rbac k cfg srv req ws) _ _ active.kept
          (rw active.valid active_valid)

    pub reconcile_active :
        srv.get_workspace req ≡ ok ws
        → (ensure_rbac k cfg srv ws).1 ≡ none
        → (ensure_network_policies k cfg srv ws).1 ≡ none
        → reconcile k cfg srv req ≡ secured (reconcile_pvc k cfg srv req ws)
    unfolding reconcile
    reconcile_active e r p = rw (e, reconcile) (active_workspace ∙ rbac_secured r p)
