-- ===== src/Operator/Cluster/Progress.antt =====
-- Progress: after enough calls, whatever happens in between, a workspace is provided.
use dev_plane.Base.{ℕ, zero, suc, Option, ◌+◌, ◌≤◌, refl, sym, subst, inl, inr, arith}
use dev_plane.Base.Result.{Result}
use dev_plane.Api.{Workspace}
use dev_plane.Platform.{Pvc, Pod, Platform, IsOwning}
use dev_plane.Resources.Names.{pvc_name, pod_name}
use dev_plane.Operator.Env.{Config, Request}
use dev_plane.Operator.Helpers.{effective_idle_timeout}
use dev_plane.Operator.PodStages.{contains_finalizer, is_outdated}
use dev_plane.Operator.Reconcile.Permitted.{IsMissing}
use dev_plane.Operator.Cluster.{
  Cluster, with_status, IsOutside, Run, done, outside, call, reconciled,
}
use dev_plane.Operator.Cluster.Effects.{Holds}
use dev_plane.Operator.Cluster.Stages.{
  IsWanted, IsRegistered, IsFinalized, IsClaimed, IsProvided, IsRun, IsStopped, finalizes, claims,
  starts,
}
use dev_plane.Operator.Cluster.Serving.{IsSettled, serves, rests}

module _ (c : Cluster) (k : Platform) (cfg : Config) (req : Request) where
  -- What a workspace has come to after so many calls.
  abbrev pub IsAt : ℕ → c.State → Type 0
  IsAt zero s = IsRegistered c k cfg req s
  IsAt (suc zero) s = IsFinalized c k cfg req s
  IsAt (suc (suc zero)) s = IsClaimed c k cfg req s
  IsAt (suc (suc (suc n))) s = IsSettled c k cfg req s

  abbrev reaccessed : Option ℕ → Workspace → Workspace
  reaccessed seen ws = with_status (record (ws.status) { last_accessed = seen }) ws

  reaccessed-IsWanted :
      (seen : Option ℕ) {ws : Workspace} → IsWanted k req ws → IsWanted k req (reaccessed seen ws)
  reaccessed-IsWanted seen w = record {
    kept = w.kept;
    valid = w.valid;
    live = w.live;
    placed = w.placed;
  }

  module _ {s t : c.State} (o : IsOutside c req s t) where
    reads :
        {ws : Workspace} {claim : Result Pvc} {pod : Result Pod}
        → Holds c req s ws claim pod
        → (seen : Option ℕ) × Holds c req t
            (reaccessed seen ws)
            ((c.server t).get_pvc req.namespace (pvc_name ws.spec.user.id))
            ((c.server t).get_pod req.namespace (pod_name ws.spec.user.id))
    reads {ws} h =
        let (seen, e) = o.accessed ws h.workspace in
        (seen, record { workspace = e; claims = refl; pods = refl })

    outside-IsRegistered : IsRegistered c k cfg req s → IsRegistered c k cfg req t
    unfolding contains_finalizer
    outside-IsRegistered h =
        let (seen, g) = reads h.holds in
        record {
          ws = reaccessed seen h.ws;
          claim = _;
          pod = _;
          holds = g;
          wanted = reaccessed-IsWanted seen h.wanted;
          bare = h.bare;
          unclaimed = o.unclaimed _ _ (subst IsMissing (sym h.holds.claims) h.unclaimed);
          unstarted = o.unstarted _ _ (subst IsMissing (sym h.holds.pods) h.unstarted);
        }

    outside-IsFinalized : IsFinalized c k cfg req s → IsFinalized c k cfg req t
    unfolding contains_finalizer
    outside-IsFinalized h =
        let (seen, g) = reads h.holds in
        record {
          ws = reaccessed seen h.ws;
          claim = _;
          pod = _;
          holds = g;
          wanted = reaccessed-IsWanted seen h.wanted;
          finalizer = h.finalizer;
          unclaimed = o.unclaimed _ _ (subst IsMissing (sym h.holds.claims) h.unclaimed);
          unstarted = o.unstarted _ _ (subst IsMissing (sym h.holds.pods) h.unstarted);
        }

    outside-IsClaimed : IsClaimed c k cfg req s → IsClaimed c k cfg req t
    unfolding contains_finalizer
    outside-IsClaimed h =
        let (seen, g) = reads h.holds in
        let (pvc', e, usable') = o.bound _ _ h.pvc h.holds.claims h.usable in
        record {
          ws = reaccessed seen h.ws;
          pvc = pvc';
          pod = _;
          holds = record { workspace = g.workspace; claims = e; pods = refl };
          wanted = reaccessed-IsWanted seen h.wanted;
          finalizer = h.finalizer;
          usable = usable';
          unstarted = o.unstarted _ _ (subst IsMissing (sym h.holds.pods) h.unstarted);
        }

    outside-IsProvided : IsProvided c k cfg req s → IsProvided c k cfg req t
    unfolding contains_finalizer is_outdated
    outside-IsProvided h =
        let (seen, g) = reads h.holds in
        let (pvc', e, usable') = o.bound _ _ h.pvc h.holds.claims h.usable in
        let (st, f) = o.moved _ _ h.pod h.holds.pods in
        record {
          ws = reaccessed seen h.ws;
          pvc = pvc';
          pod = record h.pod { status = st };
          holds = record { workspace = g.workspace; claims = e; pods = f };
          wanted = reaccessed-IsWanted seen h.wanted;
          finalizer = h.finalizer;
          usable = usable';
          current = h.current;
        }

    outside-IsRun : IsRun c k cfg req s → IsRun c k cfg req t
    unfolding outside-IsProvided
    outside-IsRun h = record {
      provided = outside-IsProvided h.provided;
      runs = record {
        kept = h.runs.kept;
        container = h.runs.container;
        only = h.runs.only;
        image = h.runs.image;
        volume = h.runs.volume;
        volumes = h.runs.volumes;
        backed = h.runs.backed;
        source = h.runs.source;
        mount = h.runs.mount;
        mounts = h.runs.mounts;
        mounted = h.runs.mounted;
        from = h.runs.from;
        path = h.runs.path;
      };
    }

    outside-IsStopped : IsStopped c k cfg req s → IsStopped c k cfg req t
    unfolding contains_finalizer effective_idle_timeout
    outside-IsStopped h =
        let (seen, e) = o.accessed h.ws h.read in
        record {
          ws = reaccessed seen h.ws;
          read = e;
          kept = h.kept;
          valid = h.valid;
          finalizer = h.finalizer;
          ended = h.ended;
          enabled = h.enabled;
        }

    outside-IsAt : (n : ℕ) → IsAt n s → IsAt n t
    outside-IsAt zero h = outside-IsRegistered h
    outside-IsAt (suc zero) h = outside-IsFinalized h
    outside-IsAt (suc (suc zero)) h = outside-IsClaimed h
    outside-IsAt (suc (suc (suc n))) (inl h) = inl (outside-IsRun h)
    outside-IsAt (suc (suc (suc n))) (inr h) = inr (outside-IsStopped h)

  module _ (owning : IsOwning k) where
    call-IsAt : (n : ℕ) (s : c.State) → IsAt n s → IsAt (suc n) (reconciled c k cfg req s)
    call-IsAt zero s h = finalizes c k cfg req s h
    call-IsAt (suc zero) s h = claims c k cfg req owning s h
    call-IsAt (suc (suc zero)) s h = inl (starts c k cfg req owning s h)
    call-IsAt (suc (suc (suc n))) s (inl h) = serves c k cfg req s owning h
    call-IsAt (suc (suc (suc n))) s (inr h) = inr (rests c k cfg req s h)

    calls-IsAt : (m : ℕ) {n : ℕ} {s t : c.State} → IsAt m s → Run c k cfg req n s t → IsAt (n + m) t
    calls-IsAt m h (done s) = subst (λ i. IsAt i s) (omega arith) h
    calls-IsAt m h (outside o r) = calls-IsAt m (outside-IsAt o m h) r
    calls-IsAt m h (call {n = n} {s = s} {u = u} r) =
        subst (λ i. IsAt i u) (omega arith) (calls-IsAt (suc m) (call-IsAt m s h) r)

    enough-IsAt : (n : ℕ) (s : c.State) → 3 ≤ n → IsAt n s → IsSettled c k cfg req s
    enough-IsAt zero s b h = absurd (omega arith)
    enough-IsAt (suc zero) s b h = absurd (omega arith)
    enough-IsAt (suc (suc zero)) s b h = absurd (omega arith)
    enough-IsAt (suc (suc (suc n))) s b h = h

    -- A workspace that is valid, not being deleted and not stopped, without the finalizer, a claim
    -- and a pod, in a cluster that accepts the writes. In every interleaving of calls of Reconcile
    -- with what others do between them, after three calls or more it has the finalizer, a claim
    -- that is not lost, and a pod that is not being deleted, whose one container runs the configured
    -- image with the claim mounted at /workspace; or it was stopped, and idle shutdown is on for
    -- it.
    pub calls-IsSettled :
        {n : ℕ} {s t : c.State}
        → IsRegistered c k cfg req s
        → Run c k cfg req n s t
        → 3 ≤ n
        → IsSettled c k cfg req t
    calls-IsSettled {n = n} {t = t} h r b = enough-IsAt (n + 0) t (omega arith) (calls-IsAt 0 h r)
