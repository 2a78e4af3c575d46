-- ===== src/Operator/Settings/Ports.antt =====
-- EGRESS_PORTS: every port that is read is one, and a list of ports is read back.
use dev_plane.Base.{
  arith, ℕ, ◌≤◌, ◌<◌, true, false, some, List, [], ◌∷◌, ◌++◌, ◌≡◌, refl, ap, ◌∙◌, All, map, ◌==◌,
  Bool-cases, Option-cases, inl, inr, is_empty, all, ltb,
}
use dev_plane.Base.Int.{ℤ, pos}
use dev_plane.Base.Text.{Text, trim_space, decimal}
use dev_plane.Base.Text.Decimal.{
  value_from, value_from-decimal, IsDigit, decimal-IsDigit, decimal-is_empty,
}
use dev_plane.Base.Text.Trim.{trim_space-digits}
use dev_plane.Security.Netpol.{is_invalid_port, tcp_port, valid_ports}
use dev_plane.Base.Text.Parse.{is_digit, parse_digits, parse_int}
use dev_plane.Operator.Settings.{split, parse_int32, parsed_ports, egress_ports}

-- A port of the network.
abbrev pub IsPort : ℤ → Type 0
IsPort p = is_invalid_port p ≡ false

parsed_ports-IsPort : (es : List Text) → All IsPort (parsed_ports es)
unfolding parsed_ports
parsed_ports-IsPort [] = tt
parsed_ports-IsPort (e ∷ es) =
    let ih = parsed_ports-IsPort es in
    elim (Bool-cases (is_empty (trim_space e))) [
      | inl blank ↦ rw blank ih
      | inr full ↦ elim (Option-cases (parse_int32 (trim_space e))) [
        | inl n ↦ rw (full, n) ih
        | inr (p, parsed) ↦ elim (Bool-cases (is_invalid_port p)) [
          | inl bad ↦ rw (full, parsed, bad) ih
          | inr good ↦ rw (full, parsed, good) (good, ih)
        ]
      ]
    ]

valid_ports_kept : (ps : List ℤ) → All IsPort ps → valid_ports ps ≡ map tcp_port ps
unfolding valid_ports
valid_ports_kept [] h = refl
valid_ports_kept (p ∷ ps) h = rw h.0 (ap (λ rest. tcp_port p ∷ rest) (valid_ports_kept ps h.1))

-- Whatever EGRESS_PORTS contains, the ports that the operator reads from it are between 1 and 65535,
-- so that the network policies drop none of them.
pub egress_ports-valid_ports :
    (raw : Text)
    → All IsPort (egress_ports raw)
      × (valid_ports (egress_ports raw) ≡ map tcp_port (egress_ports raw))
unfolding egress_ports
egress_ports-valid_ports raw = elim (Bool-cases (is_empty raw)) [
  | inl e ↦ rw e (tt, valid_ports_kept [] tt)
  | inr e ↦
      let ports = parsed_ports-IsPort (split b',' raw) in rw e (ports, valid_ports_kept _ ports)
]

-- Ports as they are written in the variable.
pub joined : ℕ → List ℕ → Text
joined p [] = decimal p
joined p (q ∷ qs) = decimal p ++ (b',' ∷ joined q qs)

split-append : (a s : Text) → All IsDigit a → split b',' (a ++ (b',' ∷ s)) ≡ a ∷ split b',' s
unfolding split
split-append [] s h = refl
split-append (c ∷ a) s h = let ih = split-append a s h.1 in rw ih (ground arith)

split-digits : (a : Text) → All IsDigit a → split b',' a ≡ a ∷ []
unfolding split
split-digits [] h = refl
split-digits (c ∷ a) h = let ih = split-digits a h.1 in rw ih (ground arith)

all-is_digit : (s : Text) → All IsDigit s → all is_digit s ≡ true
all-is_digit [] h = refl
all-is_digit (c ∷ s) h = ground (arith, all-is_digit s h.1)

parse_int32-digits :
    (s : Text)
    → All IsDigit s
    → is_empty s ≡ false
    → value_from 0 s < 2147483648
    → parse_int32 s ≡ some (pos (value_from 0 s))
unfolding parse_int32 parse_int parse_digits
parse_int32-digits [] h e small = cc
parse_int32-digits (c ∷ s) h e small =
    let digits = all-is_digit (c ∷ s) h in
    let unsigned : (c == b'-') ≡ false = ground arith in
    let positive : (c == b'+') ≡ false = ground arith in
    let fits : ltb (value_from 0 (c ∷ s)) 2147483648 ≡ true = ground arith in
    rw (unsigned, positive, digits, fits) refl

parse_int32-decimal : (p : ℕ) → p ≤ 65535 → parse_int32 (decimal p) ≡ some (pos p)
parse_int32-decimal p h =
    let value = value_from-decimal p (omega arith) in
    parse_int32-digits (decimal p) (decimal-IsDigit p) (decimal-is_empty p) (omega arith)
    ∙ ap (λ n. some (pos n)) value

parsed_ports-decimal :
    (p : ℕ) (es : List Text)
    → (1 ≤ p) × (p ≤ 65535)
    → parsed_ports (decimal p ∷ es) ≡ pos p ∷ parsed_ports es
unfolding parsed_ports
parsed_ports-decimal p es h =
    let valid : is_invalid_port (pos p) ≡ false = ground arith in
    rw
      (
        trim_space-digits (decimal p) (decimal-IsDigit p),
        decimal-is_empty p,
        parse_int32-decimal p h.1,
        valid,
      )
      refl

parsed_ports-joined :
    (p : ℕ) (ps : List ℕ)
    → (1 ≤ p) × (p ≤ 65535)
    → All (λ q. (1 ≤ q) × (q ≤ 65535)) ps
    → parsed_ports (split b',' (joined p ps)) ≡ map pos (p ∷ ps)
unfolding joined parsed_ports
parsed_ports-joined p [] h hs =
    rw (split-digits (decimal p) (decimal-IsDigit p)) (parsed_ports-decimal p [] h)
parsed_ports-joined p (q ∷ qs) h hs =
    rw (split-append (decimal p) (joined q qs) (decimal-IsDigit p)) (
      parsed_ports-decimal p (split b',' (joined q qs)) h
      ∙ ap (λ rest. pos p ∷ rest) (parsed_ports-joined q qs hs.0 hs.1))

append-is_empty : (s t : Text) → is_empty s ≡ false → is_empty (s ++ t) ≡ false
append-is_empty [] t h = cc
append-is_empty (c ∷ s) t h = refl

joined-is_empty : (p : ℕ) (ps : List ℕ) → is_empty (joined p ps) ≡ false
unfolding joined
joined-is_empty p [] = decimal-is_empty p
joined-is_empty p (q ∷ qs) = append-is_empty (decimal p) _ (decimal-is_empty p)

-- A list of ports that EGRESS_PORTS has, written in decimal with commas between them, is read back
-- as it is.
pub egress_ports-joined :
    (p : ℕ) (ps : List ℕ)
    → (1 ≤ p) × (p ≤ 65535)
    → All (λ q. (1 ≤ q) × (q ≤ 65535)) ps
    → egress_ports (joined p ps) ≡ map pos (p ∷ ps)
unfolding egress_ports
egress_ports-joined p ps h hs = rw (joined-is_empty p ps) (parsed_ports-joined p ps h hs)
