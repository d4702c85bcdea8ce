-- ===== src/Ai/Rerank/Shortlist.antt =====
-- RerankShortlist (ai_service/application/use_cases/reranking.py): order and size of its output.
use mathlib.Core.List.{Permᴰ}
use mathlib.Core.Path.{subst}
use cbir_engine.Ai.Embeddings.{AiError, empty_batch}
use cbir_engine.Ai.Rerank.{
  RerankCandidate, RerankInput, RerankOutput, RerankedItem, cut, rerank_shortlist, score_of, scored,
  unit,
}
use cbir_engine.Base.{
  List, Option, Result, [], ap, arith, drop, err, length, length-take, min, none, ok, refl, some,
  suc, take-append-drop, ℕ, ◌++◌, ◌∙◌, ◌∷◌, ◌≡◌, ◌≤◌,
}
use cbir_engine.Kernel.Floats.{Floats, Ordered, dot, fmax, fmin, sort_desc}
use cbir_engine.Kernel.Floats.Sorting.{
  Above, IsFalling, length-sort_desc, sort_desc-IsFalling, sort_desc-Perm, take-Above-drop,
  take-IsFalling,
}

module _ (fl : Floats) where
  abbrev pub size_for : Option ℕ → ℕ → ℕ
  size_for none n = n
  size_for (some k) n = min k n

  length-cut :
      {A : Type 0} (k : Option ℕ) (xs : List A) → length (cut fl k xs) ≡ size_for k (length xs)
  length-cut none xs = refl
  length-cut (some k) xs = length-take k xs

  cut-IsFalling :
      (k : Option ℕ) (xs : List (RerankedItem fl.F))
      → IsFalling fl (λ (r : RerankedItem fl.F). r.score) xs
      → IsFalling fl (λ (r : RerankedItem fl.F). r.score) (cut fl k xs)
  cut-IsFalling none xs h = h
  cut-IsFalling (some k) xs h = take-IsFalling fl (λ (r : RerankedItem fl.F). r.score) k xs h

  length-scored :
      (d : RerankInput fl.F) (cs : List (RerankCandidate fl.F))
      → length (scored fl d cs) ≡ length cs
  length-scored d [] = refl
  length-scored d (c ∷ cs) = ap suc (length-scored d cs)

  abbrev pub cosine : List fl.F → List fl.F → fl.F
  cosine a b = dot fl (unit fl a) (unit fl b)

  -- cos(query, candidate), or (1 - w) * cos(query, candidate) + w * cos(modifier, candidate), with
  -- the weight cut to [0, 1]
  abbrev pub blended : List fl.F → Option (List fl.F) → fl.F → List fl.F → fl.F
  blended query none weight vec = cosine query vec
  blended query (some m) weight vec =
      let w = fmin fl (fmax fl weight fl.zero) fl.one in
      fl.add (fl.mul (fl.sub fl.one w) (cosine query vec)) (fl.mul w (cosine m vec))

  -- Every candidate under its id, with its blend.
  abbrev pub blended_items :
      RerankInput fl.F → List (RerankCandidate fl.F) → List (RerankedItem fl.F)
  blended_items d [] = []
  blended_items d (c ∷ cs) =
      record {
        id = c.id;
        score = blended d.query_vector d.modifier_vector d.modifier_weight c.vector;
      }
      ∷ blended_items d cs

  abbrev pub item_score : RerankedItem fl.F → fl.F
  item_score r = r.score

  -- What RerankShortlist returns for a request: the items and those that were cut off are the
  -- candidates, and none of the latter scores more than an item.
  abbrev pub IsShortlist : RerankInput fl.F → Result AiError (RerankOutput fl.F) → Type 0
  IsShortlist d (err e) = (e ≡ empty_batch) × (length d.candidates ≡ 0)
  IsShortlist d (ok out) =
      (1 ≤ length d.candidates)
      × IsFalling fl item_score out.items
      × (length out.items ≡ size_for d.top_k (length d.candidates))
      × ((rest : List (RerankedItem fl.F)) × Permᴰ (out.items ++ rest)
            (blended_items d d.candidates)
          × Above fl item_score out.items rest)

  score_of-blended :
      (query : List fl.F) (m : Option (List fl.F)) (weight : fl.F) (vec : List fl.F)
      → score_of fl query m weight vec ≡ blended query m weight vec
  unfolding score_of
  score_of-blended query none weight vec = refl
  score_of-blended query (some m) weight vec = refl

  scored-blended_items :
      (d : RerankInput fl.F) (cs : List (RerankCandidate fl.F))
      → scored fl d cs ≡ blended_items d cs
  scored-blended_items d [] = refl
  scored-blended_items d (c ∷ cs) =
      rw (score_of-blended d.query_vector d.modifier_vector d.modifier_weight c.vector)
        (rw (scored-blended_items d cs) refl)

  none-Above : (xs : List (RerankedItem fl.F)) → Above fl item_score xs []
  none-Above [] = tt
  none-Above (x ∷ xs) = (tt, none-Above xs)

  append_nil : (xs : List (RerankedItem fl.F)) → xs ++ [] ≡ xs
  append_nil [] = refl
  append_nil (x ∷ xs) = ap (λ ys. x ∷ ys) (append_nil xs)

  cut-Rest :
      (k : Option ℕ) (xs : List (RerankedItem fl.F))
      → IsFalling fl item_score xs
      → (rest : List (RerankedItem fl.F)) × (cut fl k xs ++ rest ≡ xs)
        × Above fl item_score (cut fl k xs) rest
  cut-Rest none xs h = ([], append_nil xs, none-Above xs)
  cut-Rest (some k) xs h = (drop k xs, take-append-drop k xs, take-Above-drop fl item_score k xs h)

  -- When `<=` orders the scores, an empty shortlist is refused, and any other comes back in falling
  -- order of the blends of cosines, with all its candidates or with `top_k` of them that no other
  -- candidate beats, if that is asked for.
  pub rerank_shortlist-IsShortlist :
      (ordered : Ordered fl) (d : RerankInput fl.F) → IsShortlist d (rerank_shortlist fl d)
  unfolding rerank_shortlist
  rerank_shortlist-IsShortlist ordered d = by_candidates d.candidates refl
    where
      by_candidates :
          (cs : List (RerankCandidate fl.F))
          → d.candidates ≡ cs
          → IsShortlist d (rerank_shortlist fl d)
      by_candidates [] e = rw e (refl, refl)
      by_candidates (c ∷ cs) e =
          let sorted = sort_desc fl item_score (scored fl d (c ∷ cs)) in
          let falling = sort_desc-IsFalling fl item_score ordered (scored fl d (c ∷ cs)) in
          let (rest, whole, above) = cut-Rest d.top_k sorted falling in
          let same : Permᴰ sorted (blended_items d (c ∷ cs)) =
            subst (Permᴰ sorted) (scored-blended_items d (c ∷ cs))
              (sort_desc-Perm fl item_score (scored fl d (c ∷ cs))) in
          rw e (
            omega arith,
            cut-IsFalling d.top_k sorted falling,
            length-cut d.top_k sorted
                ∙ ap (size_for d.top_k) (
                    length-sort_desc fl item_score (scored fl d (c ∷ cs))
                    ∙ length-scored d (c ∷ cs)),
            (rest, rw whole same, above),
          )
