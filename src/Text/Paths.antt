-- ===== src/Text/Paths.antt =====
-- nfsv4/vector.h: splitting and joining paths.
use ssqlite.Prelude.{
  ℕ, ◌≡◌, ◌≢◌, refl, sym, ap, ◌∙◌, List, [], ◌∷◌, ◌++◌, ◌==◌, inl, inr, Bool-cases, arith,
  append_assoc, append-nil, All, length, ==_iff, ==_refl, lt→ltb, ltb, suc, true, false, ◌<◌,
}
use ssqlite.Text.{split, split_from, join, join_rest}

-- The last character, if there is one, is not `d`.
abbrev pub LastNot : ℕ → List ℕ → Type 0
LastNot d [] = Unit
LastNot d (x ∷ []) = x ≢ d
LastNot d (x ∷ y ∷ xs) = LastNot d (y ∷ xs)

abbrev pub NoDivider : ℕ → List ℕ → Type 0
NoDivider d = All (λ x. x ≢ d)

-- A piece that starts a nonempty list of pieces is joined with the separator behind it.
join_cut :
    (d : ℕ) (p : List ℕ) (ps : List (List ℕ)) → ps ≢ [] → join (p ∷ ps) d ≡ p ++ (d ∷ join ps d)
unfolding join join_rest
join_cut d p [] h = absurd (h refl)
join_cut d p (q ∷ ps) h = refl

ne-test : (x d : ℕ) → x ≢ d → (x == d) ≡ false
ne-test x d h = ground arith

ltb-pos : (n : ℕ) → ltb 0 (suc n) ≡ true
ltb-pos n = ground arith

split_from-ne : (d : ℕ) (each xs : List ℕ) → each ≢ [] → split_from d each xs ≢ []
unfolding split_from
split_from-ne d [] xs h e = h refl
split_from-ne d (x ∷ each) [] h e = cc (ltb-pos (length each))
split_from-ne d (x ∷ each) (y ∷ xs) h e =
    ground (arith, split_from-ne d (x ∷ (each ++ (y ∷ []))) xs (λ q. cc))

split_from-cons : (d x : ℕ) (xs : List ℕ) → split_from d [] (x ∷ xs) ≢ []
unfolding split_from
split_from-cons d x xs e = ground (arith, split_from-ne d (x ∷ []) xs (λ q. cc))

join-split_from :
    (d : ℕ) (each xs : List ℕ) → LastNot d xs → join (split_from d each xs) d ≡ each ++ xs
unfolding split_from join join_rest
join-split_from d [] [] h = refl
join-split_from d (e ∷ each) [] h = rw (ltb-pos (length each))
join-split_from d each (x ∷ []) h = elim (Bool-cases (x == d)) [
  | inl e ↦ absurd (h ((==_iff x d).0 e))
  | inr e ↦ rw e (join-split_from d (each ++ (x ∷ [])) [] tt ∙ append-nil _)
]
join-split_from d each (x ∷ y ∷ xs) h = elim (Bool-cases (x == d)) [
  | inl e ↦ rw e (
      join_cut d each (split_from d [] (y ∷ xs)) (split_from-cons d y xs)
      ∙ ap (λ t. each ++ (d ∷ t)) (join-split_from d [] (y ∷ xs) h)
      ∙ ap (λ c. each ++ (c ∷ y ∷ xs)) (sym ((==_iff x d).0 e)))
  | inr e ↦
      rw e (join-split_from d (each ++ (x ∷ [])) (y ∷ xs) h ∙ append_assoc each (x ∷ []) (y ∷ xs))
]

-- A text that does not end in the divider is what `join` makes of the pieces that `split` cuts it
-- into.
pub join-split : (d : ℕ) (xs : List ℕ) → LastNot d xs → join (split xs d) d ≡ xs
unfolding split
join-split d xs h = join-split_from d [] xs h

-- A piece without the divider is gathered whole.
split_from-append :
    (d : ℕ) (each p xs : List ℕ)
    → NoDivider d p
    → split_from d each (p ++ xs) ≡ split_from d (each ++ p) xs
split_from-append d each [] xs h = rw append-nil
split_from-append d each (x ∷ p) xs h =
    step
    ∙ split_from-append d (each ++ (x ∷ [])) p xs h.1
    ∙ ap (λ e. split_from d e xs) (append_assoc each (x ∷ []) p)
  where
    step : split_from d each (x ∷ (p ++ xs)) ≡ split_from d (each ++ (x ∷ [])) (p ++ xs)
    step = unfold split_from in rw (ne-test x d h.0)

split_from-divider :
    (d : ℕ) (each xs : List ℕ) → split_from d each (d ∷ xs) ≡ each ∷ split_from d [] xs
unfolding split_from
split_from-divider d each xs = rw (==_refl d)

-- The last piece, if there is one, is not empty.
abbrev pub LastFull : List (List ℕ) → Type 0
LastFull [] = Unit
LastFull (p ∷ []) = 0 < length p
LastFull (p ∷ q ∷ ps) = LastFull (q ∷ ps)

split_from-last : (d : ℕ) (p : List ℕ) → 0 < length p → split_from d p [] ≡ p ∷ []
unfolding split_from
split_from-last d p h = rw (lt→ltb 0 (length p) h)

-- Pieces that do not contain the divider, and of which the last is not empty, are what `split`
-- finds in the text that `join` makes of them.
pub split-join :
    (d : ℕ) (ps : List (List ℕ)) → All (NoDivider d) ps → LastFull ps → split (join ps d) d ≡ ps
split-join d [] h l = unfold split split_from join in refl
split-join d (p ∷ []) h l =
    unfold split join join_rest in split_from-append d [] p [] h.0 ∙ split_from-last d p l
split-join d (p ∷ q ∷ ps) h l =
    ap (λ t. split t d) (join_cut d p (q ∷ ps) (λ e. cc))
    ∙ first
    ∙ ap (λ t. p ∷ t) (split-join d (q ∷ ps) h.1 l)
  where
    cut : split_from d [] (p ++ (d ∷ join (q ∷ ps) d)) ≡ p ∷ split_from d [] (join (q ∷ ps) d)
    cut =
        split_from-append d [] p (d ∷ join (q ∷ ps) d) h.0
        ∙ split_from-divider d p (join (q ∷ ps) d)

    first : split (p ++ (d ∷ join (q ∷ ps) d)) d ≡ p ∷ split (join (q ∷ ps) d) d
    first = unfold split in cut
