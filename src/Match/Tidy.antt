-- ===== src/Match/Tidy.antt =====
-- What a normalized name looks like, and that a second normalization changes nothing.
use business_execution_ledge.Base.{
  ◌≡◌, refl, ◌∙◌, ap, Bool, true, false, ◌&&◌, ◌||◌, not, Option, none, some, [], ◌∷◌, arith, ◌==◌,
  if◌then◌else◌,
}
use business_execution_ledge.Base.Lists.{all, filter}
use business_execution_ledge.Match.Text.{
  Text, Unicode, is_blank, is_linebreak, collapse, lstrip, rstrip, tidy, normalize_counterparty,
}

module _ (u : Unicode) (space : u.is_space 32 ≡ true) where
  -- Whitespace is single blanks, and none stands first if `after`.
  abbrev pub is_spaced : Bool → Text → Bool
  is_spaced after [] = true
  is_spaced after (c ∷ t) =
      if u.is_space c then not after && (c == 32 && is_spaced true t) else is_spaced false t

  -- And the text does not end in whitespace; `after` says that it has just met some.
  abbrev pub is_trimmed : Bool → Text → Bool
  is_trimmed after [] = not after
  is_trimmed after (c ∷ t) =
      if u.is_space c then not after && (c == 32 && is_trimmed true t) else is_trimmed false t

  collapse-is_spaced : (after : Bool) (t : Text) → is_spaced after (collapse u after t) ≡ true
  unfolding collapse
  collapse-is_spaced after [] = refl
  collapse-is_spaced after (c ∷ t) = ground (arith, space, collapse-is_spaced (u.is_space c) t)

  lstrip-is_spaced :
      (after : Bool) (t : Text) → is_spaced after t ≡ true → is_spaced true (lstrip u t) ≡ true
  unfolding lstrip
  lstrip-is_spaced after [] h = refl
  lstrip-is_spaced after (c ∷ t) h = ground (arith, lstrip-is_spaced true t)

  rstrip-is_trimmed :
      (after : Bool) (t : Text)
      → is_spaced after t ≡ true
      → is_blank (rstrip u t) ≡ false
      → is_trimmed after (rstrip u t) ≡ true
  unfolding rstrip
  rstrip-is_trimmed after [] h e = cc
  rstrip-is_trimmed after (c ∷ t) h e =
      ground (arith, rstrip-is_trimmed true t, rstrip-is_trimmed false t)

  abbrev pub no_linebreak : Text → Bool
  no_linebreak t = all (λ c. not (is_linebreak c)) t

  no_linebreak-filter : (t : Text) → no_linebreak (filter (λ c. not (is_linebreak c)) t) ≡ true
  no_linebreak-filter [] = refl
  no_linebreak-filter (c ∷ t) = ground (arith, no_linebreak-filter t)

  no_linebreak-collapse :
      (after : Bool) (t : Text) → no_linebreak t ≡ true → no_linebreak (collapse u after t) ≡ true
  unfolding collapse is_linebreak
  no_linebreak-collapse after [] h = refl
  no_linebreak-collapse after (c ∷ t) h = ground (arith, no_linebreak-collapse (u.is_space c) t)

  no_linebreak-lstrip : (t : Text) → no_linebreak t ≡ true → no_linebreak (lstrip u t) ≡ true
  unfolding lstrip
  no_linebreak-lstrip [] h = refl
  no_linebreak-lstrip (c ∷ t) h = ground (arith, no_linebreak-lstrip t)

  no_linebreak-rstrip : (t : Text) → no_linebreak t ≡ true → no_linebreak (rstrip u t) ≡ true
  unfolding rstrip
  no_linebreak-rstrip [] h = refl
  no_linebreak-rstrip (c ∷ t) h = ground (arith, no_linebreak-rstrip t)

  -- A normalized name is empty, or it has no line break, and its whitespace is single blanks that
  -- stand neither first nor last.
  pub tidy_form :
      (t : Text)
      → (no_linebreak (tidy u t) ≡ true)
        × ((is_blank (tidy u t) || is_trimmed true (tidy u t)) ≡ true)
  unfolding tidy
  tidy_form t =
      let clean = filter (λ c. not (is_linebreak c)) t in
      let spaced = collapse u false clean in
      (
        no_linebreak-rstrip (lstrip u spaced) (
            no_linebreak-lstrip spaced (no_linebreak-collapse false clean (no_linebreak-filter t))),
        ground (
          arith,
          rstrip-is_trimmed true (lstrip u spaced)
              (lstrip-is_spaced false spaced (collapse-is_spaced false clean)),
        ),
      )

  filter_all : (t : Text) → no_linebreak t ≡ true → filter (λ c. not (is_linebreak c)) t ≡ t
  filter_all [] h = refl
  filter_all (c ∷ t) h = ground (arith, filter_all t)

  collapse_fixed : (after : Bool) (t : Text) → is_trimmed after t ≡ true → collapse u after t ≡ t
  unfolding collapse
  collapse_fixed after [] h = refl
  collapse_fixed after (c ∷ t) h = ground (arith, collapse_fixed (u.is_space c) t)

  lstrip_fixed : (t : Text) → is_trimmed true t ≡ true → lstrip u t ≡ t
  unfolding lstrip
  lstrip_fixed [] h = refl
  lstrip_fixed (c ∷ t) h = ground arith

  rstrip_fixed : (after : Bool) (t : Text) → is_trimmed after t ≡ true → rstrip u t ≡ t
  unfolding rstrip
  rstrip_fixed after [] h = refl
  rstrip_fixed after (c ∷ []) h = ground arith
  rstrip_fixed after (c ∷ d ∷ t) h = ground (arith, rstrip_fixed (u.is_space c) (d ∷ t))

  -- Without its first blank, a trimmed text may start as any text does.
  is_trimmed_weaken : (t : Text) → is_trimmed true t ≡ true → is_trimmed false t ≡ true
  is_trimmed_weaken [] h = refl
  is_trimmed_weaken (c ∷ t) h = ground arith

  tidy_fixed :
      (t : Text) → no_linebreak t ≡ true → (is_blank t || is_trimmed true t) ≡ true → tidy u t ≡ t
  unfolding tidy collapse lstrip rstrip
  tidy_fixed [] h k = refl
  tidy_fixed (c ∷ t) h k =
      rw
        (
          filter_all (c ∷ t) h,
          collapse_fixed false (c ∷ t) (is_trimmed_weaken (c ∷ t) k),
          lstrip_fixed (c ∷ t) k,
        )
        (rstrip_fixed true (c ∷ t) k)

  -- Where NFKC leaves a normalized name as it is, normalizing it again changes nothing.
  pub normalize_counterparty_idem :
      (name : Option Text)
      → ((t : Text) → normalize_counterparty u name ≡ some t → u.nfkc t ≡ t)
      → normalize_counterparty u (normalize_counterparty u name) ≡ normalize_counterparty u name
  unfolding normalize_counterparty
  normalize_counterparty_idem none fixed = refl
  normalize_counterparty_idem (some name) fixed =
      let form = tidy_form (u.nfkc name) in
      ap some (
        ap (tidy u) (fixed (tidy u (u.nfkc name)) refl)
        ∙ tidy_fixed (tidy u (u.nfkc name)) form.0 form.1)
