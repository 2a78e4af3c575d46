-- ===== src/Resources/Build/Pods.antt =====
-- What holds of every pod that BuildPod returns.
use dev_plane.Base.{true, false, List, [], ◌∷◌, ◌≡◌, refl, subst, All, any, Option-cases, inl, inr}
use dev_plane.Base.Text.{Text, lit, text_eq}
use dev_plane.Base.Result.{ok, OnOk, Result-cases}
use dev_plane.Api.{Workspace}
use dev_plane.Platform.{VolumeMount, Volume, claim, empty_dir, Container, PodSpec, Pod, Platform}
use dev_plane.Resources.Names.{pod_name}
use dev_plane.Resources.Build.{
  BuildOpts, object_meta, ca_volumes, ca_mounts, workspace_container, pod_spec, build_pod,
}

-- The container has a read-only file system, gains no privileges and has no capabilities.
abbrev pub IsConfined : Container → Type 0
IsConfined c =
    (c.security.read_only_root_filesystem ≡ true)
    × (c.security.allow_privilege_escalation ≡ false)
    × (c.security.drop ≡ lit "ALL" ∷ [])

-- The mount is of one of the volumes.
abbrev pub IsBacked : List Volume → VolumeMount → Type 0
IsBacked volumes m = any (λ v. text_eq v.name m.name) volumes ≡ true

-- Not root, and only confined containers whose mounts are all of the pod's volumes.
abbrev pub IsRestricted : PodSpec → Type 0
IsRestricted s =
    (s.security.run_as_non_root ≡ true)
    × All (λ c. IsConfined c × All (IsBacked s.volumes) c.volume_mounts) s.containers

-- The mounts, those of the CA bundle too, are of the volumes.
mounts-IsBacked :
    (pvc ca : Text)
    → All
        (IsBacked (
          record { name = lit "workspace-data"; source = claim pvc }
          ∷ record { name = lit "tmp"; source = empty_dir }
          ∷ ca_volumes ca))
        (record { name = lit "workspace-data"; mount_path = lit "/workspace"; read_only = false }
          ∷ record { name = lit "tmp"; mount_path = lit "/tmp"; read_only = false }
          ∷ ca_mounts ca)
unfolding ca_volumes ca_mounts text_eq lit
mounts-IsBacked pvc [] = (refl, (refl, tt))
mounts-IsBacked pvc (c ∷ ca) = (refl, (refl, (refl, tt)))

module _ (k : Platform) where
  pod_spec-IsRestricted :
      (w : Workspace) (pvc image : Text) (opts : BuildOpts)
      → IsRestricted (pod_spec k w pvc image opts)
  unfolding pod_spec workspace_container
  pod_spec-IsRestricted w pvc image opts = (refl, (((refl, refl, refl), mounts-IsBacked pvc _), tt))

  abbrev BuildsRestricted : Pod → Type 0
  BuildsRestricted p = IsRestricted p.spec

  built-IsRestricted :
      (w : Workspace) (pvc image : Text) (opts : BuildOpts)
      → OnOk BuildsRestricted (build_pod k w pvc image opts)
  unfolding build_pod
  built-IsRestricted w pvc image opts =
      elim (Option-cases (k.parse_quantity w.spec.resources.cpu)) [
        | inr (e, h) ↦ rw (h, build_pod) tt
        | inl h ↦
            rw (h, build_pod)
              (elim (Option-cases (k.parse_quantity w.spec.resources.memory)) [
                | inr (e, g) ↦ rw g tt
                | inl g ↦
                    rw g
                      (elim (Result-cases
                        (k.set_controller_reference w (object_meta (pod_name w.spec.user.id) w))) [
                          | inr (e, f) ↦ rw f tt
                          | inl (m, f) ↦ rw f (pod_spec-IsRestricted w pvc image opts)
                        ])
              ])
      ]

-- Every pod that BuildPod returns runs as a user that is not root; its containers have a read-only
-- root file system, cannot gain privileges and drop all capabilities, and each mount of theirs is
-- of a volume of the pod, be there a CA bundle or not.
pub build_pod-IsRestricted :
    (k : Platform) (w : Workspace) (pvc image : Text) (opts : BuildOpts) (p : Pod)
    → build_pod k w pvc image opts ≡ ok p
    → IsRestricted p.spec
build_pod-IsRestricted k w pvc image opts p h =
    subst (OnOk (BuildsRestricted k)) h (built-IsRestricted k w pvc image opts)
