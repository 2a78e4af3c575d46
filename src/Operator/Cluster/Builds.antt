-- ===== src/Operator/Cluster/Builds.antt =====
-- The claim and the pod of a valid workspace are built without an error.
use dev_plane.Base.{false, none, some, ◌≡◌, refl}
use dev_plane.Base.Result.{ok}
use dev_plane.Base.Text.{Text}
use dev_plane.Api.{Workspace}
use dev_plane.Platform.{Meta, Pvc, Pod, Platform, IsOwning}
use dev_plane.Resources.Names.{pvc_name, pod_name}
use dev_plane.Resources.Build.{object_meta, BuildOpts, pod_spec, build_pvc, build_pod}
use dev_plane.Resources.Validate.{validate_spec}
use dev_plane.Resources.Validate.Accepts.{validate_spec_iff}

-- The metadata of an object that the workspace owns.
abbrev pub owned : Text → Workspace → Meta
owned name ws = record (object_meta name ws) { owner = some ws.name }

module _ (k : Platform) (owning : IsOwning k) (ws : Workspace) where
  pub build_pvc_valid :
      validate_spec k ws.spec ≡ none
      → (pvc : Pvc) × (build_pvc k ws ≡ ok pvc)
        × (pvc.meta ≡ owned (pvc_name ws.spec.user.id) ws)
        × (pvc.lost ≡ false)
  unfolding build_pvc
  build_pvc_valid v =
      let valid = (validate_spec_iff k ws.spec).0 v in
      rw (valid.storage.1, owning ws (object_meta (pvc_name ws.spec.user.id) ws) refl)
        (_, refl, refl, refl)

  pub build_pod_valid :
      (pvc image : Text) (opts : BuildOpts)
      → validate_spec k ws.spec ≡ none
      → (pod : Pod) × (build_pod k ws pvc image opts ≡ ok pod)
        × (pod.meta ≡ owned (pod_name ws.spec.user.id) ws)
        × (pod.deleting ≡ false)
        × (pod.spec ≡ pod_spec k ws pvc image opts)
  unfolding build_pod
  build_pod_valid pvc image opts v =
      let valid = (validate_spec_iff k ws.spec).0 v in
      rw (valid.cpu.1, valid.memory.1, owning ws (object_meta (pod_name ws.spec.user.id) ws) refl)
        (_, refl, refl, refl, refl)
