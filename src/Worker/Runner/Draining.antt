-- ===== src/Worker/Runner/Draining.antt =====
-- run_forever: the queue runs empty.
use mathlib.Core.List.{reverse, reverse-append, reverse-reverse}
use mathlib.Core.Path.{subst}
use cbir_engine.Base.{
  List, Option, Option-cases, [], ap, arith, false, inl, inr, leb_ℤ, negsuc, none, pos, refl, some,
  suc, suc_ℤ, sym, zero, ℕ, ℤ, ◌++◌, ◌+◌, ◌-◌, ◌<◌, ◌∙◌, ◌∷◌, ◌≡◌, ◌≤◌, ◌⊎◌,
}
use cbir_engine.Kernel.Json.{JsonText}
use cbir_engine.Vectors.Port.{VectorStore}
use cbir_engine.Worker.Ports.{Outside, Settings, World}
use cbir_engine.Worker.Runner.{
  Disposition, Job, attempts_of, dead_letter, done, handle, handle_attempts, handle_job, parse_job,
  retry, turn, turns,
}
use cbir_engine.Worker.Runner.Attempts.{Advances, handle-Advances}
use cbir_engine.Worker.Runner.Conservation.{AccountsFor, handle-AccountsFor}

-- max - n, and 0 where n is larger
abbrev pub gap : ℤ → ℤ → ℕ
gap (pos m) (pos n) = m - n
gap (pos m) (negsuc n) = suc (m + n)
gap (negsuc m) (pos n) = 0
gap (negsuc m) (negsuc n) = n - m

gap-suc_ℤ : (m n : ℤ) → leb_ℤ m (suc_ℤ n) ≡ false → suc (gap m (suc_ℤ n)) ≡ gap m n
gap-suc_ℤ (pos m) (pos n) h = ground arith
gap-suc_ℤ (pos m) (negsuc zero) h = ground arith
gap-suc_ℤ (pos m) (negsuc (suc n)) h = ground arith
gap-suc_ℤ (negsuc m) (pos n) h = ground arith
gap-suc_ℤ (negsuc m) (negsuc zero) h = ground arith
gap-suc_ℤ (negsuc m) (negsuc (suc n)) h = ground arith

module _ {V : Type 0} (s : VectorStore V) (o : Outside V) (settings : Settings) where
  abbrev pub tries_left : Option ℤ → ℕ
  tries_left none = 0
  tries_left (some n) = gap settings.max_attempts n

  abbrev pub tries_of : Option Job → ℕ
  tries_of none = 0
  tries_of (some j) = tries_left (attempts_of s o settings j)

  -- The turns that a payload can take: one, and one for each retry that its count of attempts leaves.
  abbrev pub tries : JsonText → ℕ
  tries payload = suc (tries_of (parse_job payload))

  abbrev pub total_tries : List JsonText → ℕ
  total_tries [] = 0
  total_tries (payload ∷ q) = tries payload + total_tries q

  total_tries-append : (p q : List JsonText) → total_tries (p ++ q) ≡ total_tries p + total_tries q
  total_tries-append [] q = omega arith
  total_tries-append (x ∷ p) q = omega (arith, total_tries-append p q)

  total_tries-reverse : (q : List JsonText) → total_tries (reverse q) ≡ total_tries q
  total_tries-reverse [] = refl
  total_tries-reverse (x ∷ q) =
      rw (reverse-append (x ∷ []) q)
        (omega (arith, total_tries-append (reverse q) (x ∷ []), total_tries-reverse q))

  total_tries-zero : (q : List JsonText) → total_tries q ≤ 0 → q ≡ []
  total_tries-zero [] h = refl
  total_tries-zero (x ∷ q) h = absurd (omega (arith, h))

  -- A retry leaves fewer tries than the payload had.
  abbrev IsShorter : JsonText → Option Disposition → Type 0
  IsShorter payload none = Unit
  IsShorter payload (some done) = Unit
  IsShorter payload (some (dead_letter p)) = Unit
  IsShorter payload (some (retry p)) = tries p < tries payload

  Advances-IsShorter :
      (payload : JsonText) (j : Job) (n : ℤ) (d : Option Disposition)
      → parse_job payload ≡ some j
      → attempts_of s o settings j ≡ some n
      → Advances s o settings j n d
      → IsShorter payload d
  Advances-IsShorter payload j n none parsed counted h = tt
  Advances-IsShorter payload j n (some done) parsed counted h = tt
  Advances-IsShorter payload j n (some (dead_letter p)) parsed counted h = tt
  Advances-IsShorter payload j n (some (retry p)) parsed counted (j', again, same, written, room) =
      rw parsed
        (rw counted (rw again (rw written (omega (arith, gap-suc_ℤ settings.max_attempts n room)))))

  handle-IsShorter :
      (payload : JsonText) (w : World s o) → IsShorter payload (handle s o settings payload w).0
  unfolding handle
  handle-IsShorter payload w = elim (Option-cases (parse_job payload)) [
    | inl broken ↦
        subst (λ c. IsShorter payload (handle_job s o settings payload c w).0) (sym broken) tt
    | inr (j, parsed) ↦ elim (Option-cases (attempts_of s o settings j)) [
      | inl odd ↦
          subst (λ c. IsShorter payload (handle_job s o settings payload c w).0) (sym parsed)
            (subst (λ c. IsShorter payload (handle_attempts s o settings payload j c w).0) (sym odd)
              tt)
      | inr (n, counted) ↦
          Advances-IsShorter payload j n (handle s o settings payload w).0 parsed counted
            (handle-Advances s o settings payload j n w parsed counted)
    ]
  ]

  shrinks :
      (payload : JsonText) (w : World s o) (d : Option Disposition) (v : World s o)
      → AccountsFor s o settings payload w d v
      → IsShorter payload d
      → total_tries v.queue < tries payload + total_tries w.queue
  shrinks payload w none v h k = rw h.0 (omega arith)
  shrinks payload w (some done) v h k = rw h.0 (omega arith)
  shrinks payload w (some (dead_letter p)) v h k = rw h.1 (omega arith)
  shrinks payload w (some (retry p)) v h k = rw h.0 (omega (arith, k))

  handle-Shrinks :
      (payload : JsonText) (w : World s o)
      → total_tries (handle s o settings payload w).1.queue < tries payload + total_tries w.queue
  handle-Shrinks payload w =
      shrinks payload w (handle s o settings payload w).0 (handle s o settings payload w).1
        (handle-AccountsFor s o settings payload w) (handle-IsShorter payload w)

  -- What a turn leaves: an empty queue stays as it is, and any other holds fewer tries.
  turn-Shrinks :
      (w : World s o)
      → ((turn s o settings w ≡ none) × (w.queue ≡ []))
        ⊎ ((v : World s o) × (turn s o settings w ≡ some v)
            × (total_tries v.queue < total_tries w.queue))
  unfolding turn
  turn-Shrinks w = from (reverse w.queue) refl
    where
      from :
          (q : List JsonText)
          → reverse w.queue ≡ q
          → ((turn s o settings w ≡ none) × (w.queue ≡ []))
            ⊎ ((v : World s o) × (turn s o settings w ≡ some v)
                × (total_tries v.queue < total_tries w.queue))
      from [] e = inl (rw (e, turn) refl, sym (reverse-reverse w.queue) ∙ ap reverse e)
      from (payload ∷ rest) e =
          let taken : World s o = record w { queue = reverse rest } in
          let total : tries payload + total_tries rest ≡ total_tries w.queue =
            sym (ap total_tries e) ∙ total_tries-reverse w.queue in
          inr (
            (handle s o settings payload taken).1,
            rw (e, turn) refl,
            omega (arith, handle-Shrinks payload taken, total, total_tries-reverse rest),
          )

  -- With no new arrivals the loop empties the queue, whatever the outside systems answer: within as
  -- many turns as the queued jobs have tries left.
  pub turns-Drains :
      (k : ℕ) (w : World s o) → total_tries w.queue ≤ k → (turns s o settings k w).queue ≡ []
  unfolding turns
  turns-Drains zero w h = total_tries-zero w.queue h
  turns-Drains (suc k) w h = elim (turn-Shrinks w) [
    | inl (stopped, idle) ↦ rw (stopped, turns) idle
    | inr (v, went, less) ↦ rw (went, turns) (turns-Drains k v (omega (arith, less, h)))
  ]
