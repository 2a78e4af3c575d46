-- ===== src/Resources/Names/Format.antt =====
-- What the DNS label test accepts, and that derived names pass it.
use dev_plane.Base.{
  ℕ, ◌≤◌, true, [], ◌∷◌, ◌++◌, ◌||◌, ◌≡◌, refl, ◌↔◌, ◌⊎◌, inl, inr, ap, arith, All, length,
  length-append, ◌==◌,
}
use dev_plane.Base.Text.{Text, lit}
use dev_plane.Resources.Names.{
  is_lower, is_alnum, label_rest, dns_label, pvc_name, pod_name, service_name, service_account_name,
}

-- A byte of [a-z0-9\-].
abbrev pub IsLabelByte : ℕ → Type 0
IsLabelByte c = (is_alnum c || c == b'-') ≡ true

-- ([a-z0-9\-]*[a-z0-9])?, read off the regular expression
abbrev IsLabelRest : Text → Type 0
IsLabelRest s =
    (s ≡ [])
    ⊎ ((middle : Text) × (last : ℕ) × (s ≡ middle ++ last ∷ [])
        × All IsLabelByte middle
        × (is_alnum last ≡ true))

-- [a-z]([a-z0-9\-]*[a-z0-9])?
abbrev pub IsDnsLabel : Text → Type 0
IsDnsLabel s =
    (first : ℕ) × (rest : Text) × (s ≡ first ∷ rest) × (is_lower first ≡ true) × IsLabelRest rest

label_rest_sound : (s : Text) → label_rest s ≡ true → IsLabelRest s
unfolding label_rest
label_rest_sound [] h = inl refl
label_rest_sound (c ∷ []) h = inr ([], c, refl, tt, h)
label_rest_sound (c ∷ d ∷ s) h = elim (label_rest_sound (d ∷ s) (ground arith)) [
  | inl e ↦ cc
  | inr (m, l, e, b, a) ↦ inr (c ∷ m, l, ap (λ t. c ∷ t) e, (ground arith, b), a)
]

label_rest_complete :
    (middle : Text) (last : ℕ)
    → All IsLabelByte middle
    → is_alnum last ≡ true
    → label_rest (middle ++ last ∷ []) ≡ true
unfolding label_rest
label_rest_complete [] l b a = a
label_rest_complete (c ∷ []) l b a = ground arith
label_rest_complete (c ∷ d ∷ m) l b a = ground (arith, label_rest_complete (d ∷ m) l b.1 a)

label_rest_of : (s : Text) → IsLabelRest s → label_rest s ≡ true
label_rest_of s (inl e) = rw e (unfold label_rest in refl)
label_rest_of s (inr (m, l, e, b, a)) = rw e (label_rest_complete m l b a)

dns_label_sound : (s : Text) → dns_label s ≡ true → IsDnsLabel s
unfolding dns_label
dns_label_sound [] h = cc
dns_label_sound (c ∷ s) h = (c, s, refl, ground arith, label_rest_sound s (ground arith))

dns_label_complete : (s : Text) → IsDnsLabel s → dns_label s ≡ true
unfolding dns_label
dns_label_complete s (d, r, e, l, k) = rw e (ground (arith, label_rest_of r k))

-- dns_label, the test by dnsLabelRegex, accepts exactly the texts of that regular expression: a letter
-- from a to z, then nothing, or letters, digits and dashes that end with a letter or a digit.
pub dns_label_iff : (s : Text) → (dns_label s ≡ true) ↔ IsDnsLabel s
dns_label_iff s = (dns_label_sound s, dns_label_complete s)

label_rest-append :
    (s t : Text) → label_rest s ≡ true → label_rest t ≡ true → label_rest (s ++ t) ≡ true
unfolding label_rest
label_rest-append [] t h k = k
label_rest-append (c ∷ []) [] h k = h
label_rest-append (c ∷ []) (d ∷ t) h k = ground arith
label_rest-append (c ∷ d ∷ s) t h k = ground (arith, label_rest-append (d ∷ s) t (ground arith) k)

dns_label-append :
    (s t : Text) → dns_label s ≡ true → label_rest t ≡ true → dns_label (s ++ t) ≡ true
unfolding dns_label
dns_label-append [] t h k = cc
dns_label-append (c ∷ s) t h k = ground (arith, label_rest-append s t (ground arith) k)

-- A name that Kubernetes takes for a pod, a claim, a service or a service account.
abbrev pub IsResourceName : Text → Type 0
IsResourceName s = IsDnsLabel s × (length s ≤ 63)

suffixed :
    (id suffix : Text)
    → dns_label id ≡ true
    → length id ≤ 49
    → label_rest suffix ≡ true
    → length suffix ≤ 14
    → IsResourceName (id ++ suffix)
suffixed id t h b k c =
    ((dns_label_iff (id ++ t)).0 (dns_label-append id t h k), omega (arith, length-append {0} id t))

-- From a DNS label of at most 49 bytes, the names of the claim, the pod, the service and the
-- service account are DNS labels of at most 63 bytes.
pub derived-IsResourceName :
    (id : Text)
    → dns_label id ≡ true
    → length id ≤ 49
    → IsResourceName (pvc_name id)
      × IsResourceName (pod_name id)
      × IsResourceName (service_name id)
      × IsResourceName (service_account_name id)
unfolding pvc_name pod_name service_name service_account_name lit
derived-IsResourceName id h b = (
  suffixed id (lit "-workspace-pvc") h b (unfold label_rest in refl) (omega arith),
  suffixed id (lit "-workspace-pod") h b (unfold label_rest in refl) (omega arith),
  suffixed id (lit "-workspace-svc") h b (unfold label_rest in refl) (omega arith),
  suffixed id (lit "-workspace") h b (unfold label_rest in refl) (omega arith),
)
