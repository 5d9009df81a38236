-- ===== src/Facts/Walk.antt =====
-- `list_revisions` follows the chain of an anchor. On a sound store the walk ends, and it meets every
-- revision of the anchor.
use business_execution_ledge.Base.{
  ℕ, zero, suc, ◌&&◌, map, ◌≤◌, ◌<◌, ◌≡◌, refl, sym, ◌∙◌, Bool, true, false, none, some, List, [],
  ◌∷◌, ◌++◌, arith, ◌==◌, if◌then◌else◌, Bool-cases, ==_self, inl, inr,
}
use mathlib.Core.List.{append_assoc, append-nil}
use business_execution_ledge.Base.Lists.{
  any, length, filter, find, count, count-append, find-append, filter-append,
}
use business_execution_ledge.Facts.Rows.{Revision, is_initial}
use business_execution_ledge.Facts.Repository.{
  is_of, is_current, revisions_of, walk, list_revisions, get_current_revision,
}
use business_execution_ledge.Facts.Chain.{follows, is_chain, has_id, IsSound, last}
use business_execution_ledge.Facts.History.{entry_of, history, newest, newest_from-last}

any-has_id : (i : ℕ) (xs : List Revision) → count (has_id i) xs ≡ 0 → any (has_id i) xs ≡ false
any-has_id i [] h = refl
any-has_id i (x ∷ xs) h = ground (arith, any-has_id i xs)

-- A row is found by its id where no two rows share one.
find_by_id :
    (pre : List Revision) (x : Revision) (post : List Revision)
    → count (has_id x.id) (pre ++ x ∷ post) ≤ 1
    → find (has_id x.id) (pre ++ x ∷ post) ≡ some x
find_by_id pre x post h =
    let free : count (has_id x.id) pre ≡ 0 =
      ground (arith, count-append (has_id x.id) pre (x ∷ post)) in
    rw (find-append (has_id x.id) pre (x ∷ post), any-has_id x.id pre free, ==_self x.id) refl

walk_lem :
    (n : ℕ) (pre : List Revision) (x : Revision) (xs own : List Revision)
    → own ≡ pre ++ x ∷ xs
    → ((i : ℕ) → count (has_id i) own ≤ 1)
    → follows x.superseded_by_revision_id xs ≡ true
    → length xs < n
    → walk n own x ≡ some (x ∷ xs)
unfolding walk
walk_lem zero pre x xs own e d h b = ground arith
walk_lem (suc n) pre x [] own e d h b = ground arith
walk_lem (suc n) pre x (y ∷ ys) own e d h b =
    let e' : own ≡ (pre ++ x ∷ []) ++ y ∷ ys = e ∙ sym (append_assoc pre (x ∷ []) (y ∷ ys)) in
    let found : find (has_id y.id) own ≡ some y =
      rw e' (find_by_id (pre ++ x ∷ []) y ys (rw (← e') (d y.id))) in
    let rest : walk n own y ≡ some (y ∷ ys) =
      walk_lem n (pre ++ x ∷ []) y ys own e' d (ground arith) (omega arith) in
    let next : x.superseded_by_revision_id ≡ some y.id = ground arith in
    ground (arith, next, found, rest)

count-filter : (p q : Revision → Bool) (xs : List Revision) → count p (filter q xs) ≤ count p xs
count-filter p q [] = omega arith
count-filter p q (x ∷ xs) = ground (arith, count-filter p q xs)

list_revisions_of :
    (own : List Revision)
    → is_chain own ≡ true
    → ((i : ℕ) → count (has_id i) own ≤ 1)
    → elim own [
      | [] ↦ some []
      | r ∷ rs ↦ elim (find (λ (x : Revision). is_initial x.revision_type) (r ∷ rs)) [
        | none ↦ none
        | some first ↦ walk (length (r ∷ rs)) (r ∷ rs) first
      ]
    ]
      ≡ some own
list_revisions_of [] h d = refl
list_revisions_of (x ∷ xs) h d =
    let first : is_initial x.revision_type ≡ true = ground arith in
    rw first (walk_lem (suc (length xs)) [] x xs (x ∷ xs) refl d (ground arith) (omega arith))

-- On a sound store, `list_revisions` returns, and it returns every revision of the anchor and no
-- other, in the order they were written: its walk along the links neither goes on for ever nor meets
-- a missing row.
pub list_revisions_returns :
    (a : ℕ) (rows : List Revision)
    → IsSound rows
    → list_revisions a rows ≡ some (revisions_of a rows)
unfolding list_revisions
list_revisions_returns a rows sound =
    list_revisions_of (revisions_of a rows) (sound.chains a)
      (λ i. omega (arith, count-filter (has_id i) (is_of a) rows, sound.distinct i))

pub find-and :
    (a : ℕ) (p : Revision → Bool) (rows : List Revision)
    → find (λ r. is_of a r && p r) rows ≡ find p (revisions_of a rows)
find-and a p [] = refl
find-and a p (x ∷ xs) = ground (arith, find-and a p xs)

pub find-current-last :
    (x : Revision) (xs : List Revision)
    → follows x.superseded_by_revision_id xs ≡ true
    → find is_current (x ∷ xs) ≡ some (last x xs)
find-current-last x [] h = ground arith
find-current-last x (y ∷ ys) h = ground (arith, find-current-last y ys)

current_of_chain :
    (own : List Revision)
    → is_chain own ≡ true
    → elim (find is_current own) [ none ↦ none | some r ↦ some (entry_of r) ]
      ≡ newest (map entry_of own)
current_of_chain [] h = refl
current_of_chain (x ∷ xs) h = rw (find-current-last x xs (ground arith), newest_from-last x xs) refl

-- The current revision of an anchor, which is the one that nothing supersedes, is the newest entry
-- of its log, and there is none exactly when the log is empty.
pub get_current_revision-newest :
    (a : ℕ) (rows : List Revision)
    → IsSound rows
    → elim (get_current_revision a rows) [ none ↦ none | some r ↦ some (entry_of r) ]
      ≡ newest (history a rows)
unfolding get_current_revision
get_current_revision-newest a rows sound =
    rw (find-and a is_current rows) (current_of_chain (revisions_of a rows) (sound.chains a))

revisions_of-created :
    (a : ℕ) (r : Revision) (rows : List Revision)
    → revisions_of a (rows ++ r ∷ [])
      ≡ (if r.anchor_id == a then revisions_of a rows ++ r ∷ [] else revisions_of a rows)
revisions_of-created a r rows = elim (Bool-cases (r.anchor_id == a)) [
  | inl e ↦ rw (filter-append (is_of a) rows (r ∷ []), e) refl
  | inr e ↦ rw (filter-append (is_of a) rows (r ∷ []), e, append-nil) refl
]

-- The first revision of a new anchor keeps a store sound.
pub IsSound-started :
    (r : Revision) (rows : List Revision)
    → IsSound rows
    → is_initial r.revision_type ≡ true
    → is_current r ≡ true
    → revisions_of r.anchor_id rows ≡ []
    → count (has_id r.id) rows ≡ 0
    → IsSound (rows ++ r ∷ [])
IsSound-started r rows sound first current fresh new = record {
  chains = λ a. elim (Bool-cases (r.anchor_id == a)) [
    | inl e ↦
        let same : a ≡ r.anchor_id = ground arith in
        rw (revisions_of-created a r rows, e, same, fresh) (ground arith)
    | inr e ↦ rw (revisions_of-created a r rows, e) (sound.chains a)
  ];
  distinct = λ i. elim (Bool-cases (r.id == i)) [
    | inl e ↦
        let same : i ≡ r.id = ground arith in
        rw (same, count-append (has_id r.id) rows (r ∷ []), new) (ground arith)
    | inr e ↦ rw (count-append (has_id i) rows (r ∷ [])) (ground (arith, sound.distinct i))
  ];
}
