-- ===== src/Gateway/Web/Css.antt =====
-- injectFullWidthTerminalCSS of cmd/gateway/main.go, which changes the page that ttyd answers.
use dev_plane.Base.{
  ℕ, true, Option, none, some, [], ◌∷◌, ◌++◌, ◌≡◌, refl, ap, ◌==◌, ==_iff, not, if◌then◌else◌,
  length, Bool-cases, inl, inr,
}
use dev_plane.Base.Text.{Text, lit, has_prefix, contains, decimal}
use dev_plane.Base.Result.{Error, Result, ok, fail}

-- The fields of an http.Response that the function reads or writes; a header that is missing is
-- none.
pub record HttpResponse : Type 0 where
  pub status_code : ℕ
  pub content_type : Text
  pub body : Text
  pub content_length : ℕ
  pub content_length_header : Option Text
  pub transfer_encoding : Option Text

abbrev pub full_width_terminal_css : Text
full_width_terminal_css =
    lit "<style>html,body{width:100%;height:100%;margin:0;padding:0;overflow:hidden;"
    ++ lit "box-sizing:border-box}body>div,#terminal{width:100%!important;height:100%!important;"
    ++ lit "margin:0!important;padding:0!important;box-sizing:border-box}</style>"

abbrev pub head_close : Text
head_close = lit "</head>"

-- The text behind a prefix.
abbrev behind : Text → Text → Text
behind [] s = s
behind (a ∷ p) [] = []
behind (a ∷ p) (b ∷ s) = behind p s

-- bytes.Replace(s, old, new, 1), where `old` is not empty.
unfoldable pub replace_first : (old new s : Text) → Text
replace_first old new [] = []
replace_first old new (b ∷ s) =
    let rest = replace_first old new s in
    if has_prefix old (b ∷ s) then new ++ behind old (b ∷ s) else b ∷ rest

-- The first argument is what reading the body fails with.
unfoldable pub inject_full_width_terminal_css : Option Error → HttpResponse → Result HttpResponse
unfolding replace_first
inject_full_width_terminal_css read_error resp =
    let injected = replace_first head_close (full_width_terminal_css ++ head_close) resp.body in
    let changed = record resp {
      body = injected;
      content_length = length injected;
      content_length_header = some (decimal (length injected));
      transfer_encoding = none;
    } in
    if not (resp.status_code == 200)
    then ok resp
    else if not (contains (lit "text/html") resp.content_type)
    then ok resp
    else elim read_error [
      | some err ↦ fail err
      | none ↦ if not (contains head_close resp.body) then ok resp else ok changed
    ]

has_prefix-behind : (p s : Text) → has_prefix p s ≡ true → s ≡ p ++ behind p s
unfolding has_prefix
has_prefix-behind [] s h = refl
has_prefix-behind (a ∷ p) [] h = cc
has_prefix-behind (a ∷ p) (b ∷ s) h = elim (Bool-cases (a == b)) [
  | inl e ↦
      let same : a ≡ b = (==_iff a b).0 e in
      let h' = rw e at h in rw same (ap (λ t. b ∷ t) (has_prefix-behind p s h'))
  | inr e ↦ let h' = rw e at h in cc
]

-- Where a text contains another that is not empty, the replacement stands in its place.
replace_first-contains :
    (a : ℕ) (p new s : Text)
    → contains (a ∷ p) s ≡ true
    → (before : Text) × (after : Text) × (s ≡ before ++ ((a ∷ p) ++ after))
      × (replace_first (a ∷ p) new s ≡ before ++ (new ++ after))
unfolding contains has_prefix replace_first
replace_first-contains a p new [] h = cc
replace_first-contains a p new (b ∷ s) h = elim (Bool-cases (has_prefix (a ∷ p) (b ∷ s))) [
  | inl e ↦ ([], behind p s, has_prefix-behind (a ∷ p) (b ∷ s) e, rw e refl)
  | inr e ↦
      let h' = rw e at h in
      let (before, after, whole, replaced) = replace_first-contains a p new s h' in
      (b ∷ before, after, ap (λ t. b ∷ t) whole, rw e (ap (λ t. b ∷ t) replaced))
]

replace_head :
    (new s : Text)
    → contains head_close s ≡ true
    → (before : Text) × (after : Text) × (s ≡ before ++ (head_close ++ after))
      × (replace_first head_close new s ≡ before ++ (new ++ after))
unfolding lit
replace_head new s h = replace_first-contains b'<' (lit "/head>") new s h

-- A page that contains </head>, answered with status 200 as text/html and read without an error, is
-- sent on with the style sheet in front of a </head> and nothing else changed, the header
-- Content-Length and the recorded length are those of the new page, and Transfer-Encoding is gone.
pub inject_inserts :
    (resp : HttpResponse)
    → resp.status_code ≡ 200
    → contains (lit "text/html") resp.content_type ≡ true
    → contains head_close resp.body ≡ true
    → (before : Text) × (after : Text) × (page : Text) × (resp.body
        ≡ before ++ (head_close ++ after))
      × (page ≡ before ++ ((full_width_terminal_css ++ head_close) ++ after))
      × (inject_full_width_terminal_css none resp
          ≡ ok (record resp {
            body = page;
            content_length = length page;
            content_length_header = some (decimal (length page));
            transfer_encoding = none;
          }))
unfolding inject_full_width_terminal_css
inject_inserts resp status html found =
    let (before, after, whole, replaced) =
      replace_head (full_width_terminal_css ++ head_close) resp.body found in
    (
      before,
      after,
      _,
      whole,
      replaced,
      rw ((==_iff resp.status_code 200).1 status, html, found) refl,
    )
