-- ===== src/ProcessRunner/Captures.antt =====
-- What runner/src/process_runner.ts keeps of the output.
use mathlib.Core.Path.{subst}
use mathlib.Core.List.{append-nil, append_assoc}
use evm_contract_auditor_hon.Prelude.{
  ℕ, ◌+◌, ◌≤◌, ◌<◌, ◌≡◌, refl, sym, ap, ◌∙◌, List, [], ◌∷◌, ◌++◌, true, false, length,
  length-append, ltb, arith, if◌then◌else◌, inl, inr, ◌⊎◌,
}
use evm_contract_auditor_hon.ProcessRunner.{
  Stream, stdout, stderr, Captured, capture_chunk, concat, count_bytes, push_chunk, keep_chunk,
}

-- Several chunks, one after the other, and what they amount to.
unfoldable pub capture_all : ℕ → List (Stream × List ℕ) → Captured → Captured
capture_all max [] c = c
capture_all max ((stream, chunk) ∷ rest) c = capture_all max rest (capture_chunk max stream chunk c)

abbrev pub total : List (Stream × List ℕ) → ℕ
total [] = 0
total ((stream, chunk) ∷ rest) = length chunk + total rest

abbrev pub read_from : Stream → List (Stream × List ℕ) → List ℕ
read_from s [] = []
read_from stdout ((stdout, chunk) ∷ rest) = chunk ++ read_from stdout rest
read_from stdout ((stderr, chunk) ∷ rest) = read_from stdout rest
read_from stderr ((stderr, chunk) ∷ rest) = chunk ++ read_from stderr rest
read_from stderr ((stdout, chunk) ∷ rest) = read_from stderr rest

abbrev pub kept_bytes : Captured → ℕ
kept_bytes c = length (concat c.stdout_chunks) + length (concat c.stderr_chunks)

abbrev pub counted_bytes : Captured → ℕ
counted_bytes c = c.stdout_bytes + c.stderr_bytes

length-concat-append :
    (chunks : List (List ℕ)) (chunk : List ℕ)
    → length (concat (chunks ++ chunk ∷ [])) ≡ length (concat chunks) + length chunk
length-concat-append [] chunk = omega (arith, length-append chunk [])
length-concat-append (c ∷ cs) chunk = omega (
  arith,
  length-concat-append cs chunk,
  length-append c (concat (cs ++ chunk ∷ [])),
  length-append c (concat cs),
)

kept-push_chunk :
    (stream : Stream) (chunk : List ℕ) (c : Captured)
    → kept_bytes (push_chunk stream chunk c) ≡ kept_bytes c + length chunk
kept-push_chunk stdout chunk c = omega (arith, length-concat-append c.stdout_chunks chunk)
kept-push_chunk stderr chunk c = omega (arith, length-concat-append c.stderr_chunks chunk)

counted-count_bytes :
    (stream : Stream) (n : ℕ) (c : Captured)
    → counted_bytes (count_bytes stream n c) ≡ counted_bytes c + n
counted-count_bytes stdout n c = omega arith
counted-count_bytes stderr n c = omega arith

kept-count_bytes :
    (stream : Stream) (n : ℕ) (c : Captured) → kept_bytes (count_bytes stream n c) ≡ kept_bytes c
kept-count_bytes stdout n c = refl
kept-count_bytes stderr n c = refl

counted-push_chunk :
    (stream : Stream) (chunk : List ℕ) (c : Captured)
    → counted_bytes (push_chunk stream chunk c) ≡ counted_bytes c
counted-push_chunk stdout chunk c = refl
counted-push_chunk stderr chunk c = refl

exceeded-count_bytes :
    (stream : Stream) (n : ℕ) (c : Captured)
    → (count_bytes stream n c).output_limit_exceeded ≡ c.output_limit_exceeded
exceeded-count_bytes stdout n c = refl
exceeded-count_bytes stderr n c = refl

exceeded-push_chunk :
    (stream : Stream) (chunk : List ℕ) (c : Captured)
    → (push_chunk stream chunk c).output_limit_exceeded ≡ c.output_limit_exceeded
exceeded-push_chunk stdout chunk c = refl
exceeded-push_chunk stderr chunk c = refl

-- The streams hold what was read, and no more bytes than the limit.
pub record IsComplete (max : ℕ) (before : Captured) (chunks : List (Stream × List ℕ)) (c : Captured)
    : Type 0 where
  pub exceeded : c.output_limit_exceeded ≡ false
  pub within : counted_bytes before + total chunks ≤ max
  pub out : concat c.stdout_chunks ≡ concat before.stdout_chunks ++ read_from stdout chunks
  pub errors : concat c.stderr_chunks ≡ concat before.stderr_chunks ++ read_from stderr chunks

-- More was read than the limit, and no more than it was kept.
pub record IsCut (max : ℕ) (before : Captured) (chunks : List (Stream × List ℕ)) (c : Captured)
    : Type 0 where
  pub exceeded : c.output_limit_exceeded ≡ true
  pub beyond : max < counted_bytes before + total chunks
  pub kept : kept_bytes c ≤ max

capture_chunk-exceeded :
    (max : ℕ) (stream : Stream) (chunk : List ℕ) (c : Captured)
    → c.output_limit_exceeded ≡ true
    → capture_chunk max stream chunk c ≡ c
unfolding capture_chunk
capture_chunk-exceeded max stream chunk c h =
    ap (λ b. if b then c else keep_chunk max stream chunk (count_bytes stream (length chunk) c)) h

capture_chunk-within :
    (max : ℕ) (stream : Stream) (chunk : List ℕ) (c : Captured)
    → c.output_limit_exceeded ≡ false
    → counted_bytes c + length chunk ≤ max
    → capture_chunk max stream chunk c
      ≡ push_chunk stream chunk (count_bytes stream (length chunk) c)
unfolding capture_chunk
capture_chunk-within max stream chunk c h fits =
    ap (λ b. if b then c else keep_chunk max stream chunk (count_bytes stream (length chunk) c)) h
    ∙ ap
        (λ b.
          if b
          then record (count_bytes stream (length chunk) c) { output_limit_exceeded = true }
          else push_chunk stream chunk (count_bytes stream (length chunk) c))
        (not_beyond (counted-count_bytes stream (length chunk) c) fits)
  where
    not_beyond : {n m : ℕ} → n ≡ m → m ≤ max → ltb max n ≡ false
    not_beyond h k = ground (arith, h)

capture_chunk-beyond :
    (max : ℕ) (stream : Stream) (chunk : List ℕ) (c : Captured)
    → c.output_limit_exceeded ≡ false
    → max < counted_bytes c + length chunk
    → capture_chunk max stream chunk c
      ≡ record (count_bytes stream (length chunk) c) { output_limit_exceeded = true }
unfolding capture_chunk
capture_chunk-beyond max stream chunk c h large =
    ap (λ b. if b then c else keep_chunk max stream chunk (count_bytes stream (length chunk) c)) h
    ∙ ap
        (λ b.
          if b
          then record (count_bytes stream (length chunk) c) { output_limit_exceeded = true }
          else push_chunk stream chunk (count_bytes stream (length chunk) c))
        (beyond (counted-count_bytes stream (length chunk) c) large)
  where
    beyond : {n m : ℕ} → n ≡ m → max < m → ltb max n ≡ true
    beyond h k = ground (arith, h)

capture_all-exceeded :
    (max : ℕ) (chunks : List (Stream × List ℕ)) (c : Captured)
    → c.output_limit_exceeded ≡ true
    → capture_all max chunks c ≡ c
unfolding capture_all
capture_all-exceeded max [] c h = refl
capture_all-exceeded max ((stream, chunk) ∷ rest) c h =
    ap (capture_all max rest) (capture_chunk-exceeded max stream chunk c h)
    ∙ capture_all-exceeded max rest c h

concat-append :
    (chunks : List (List ℕ)) (chunk : List ℕ)
    → concat (chunks ++ chunk ∷ []) ≡ concat chunks ++ chunk
concat-append [] chunk = append-nil chunk
concat-append (c ∷ cs) chunk =
    ap (λ bytes. c ++ bytes) (concat-append cs chunk) ∙ sym (append_assoc c (concat cs) chunk)

-- What one more chunk does to the bytes of its stream.
chunks-push_chunk :
    (stream : Stream) (chunk : List ℕ) (rest : List (Stream × List ℕ)) (c : Captured)
    → (concat (push_chunk stream chunk c).stdout_chunks ++ read_from stdout rest
        ≡ concat c.stdout_chunks ++ read_from stdout ((stream, chunk) ∷ rest))
      × (concat (push_chunk stream chunk c).stderr_chunks ++ read_from stderr rest
          ≡ concat c.stderr_chunks ++ read_from stderr ((stream, chunk) ∷ rest))
chunks-push_chunk stdout chunk rest c = (
  rw (
    concat-append c.stdout_chunks chunk,
    append_assoc (concat c.stdout_chunks) chunk (read_from stdout rest),
  ),
  refl,
)
chunks-push_chunk stderr chunk rest c = (
  refl,
  rw (
    concat-append c.stderr_chunks chunk,
    append_assoc (concat c.stderr_chunks) chunk (read_from stderr rest),
  ),
)

chunks-count_bytes :
    (stream : Stream) (n : ℕ) (c : Captured)
    → ((count_bytes stream n c).stdout_chunks ≡ c.stdout_chunks)
      × ((count_bytes stream n c).stderr_chunks ≡ c.stderr_chunks)
chunks-count_bytes stdout n c = (refl, refl)
chunks-count_bytes stderr n c = (refl, refl)

module _ (max : ℕ) (stream : Stream) (chunk : List ℕ) (rest : List (Stream × List ℕ))
    (c : Captured) where
  abbrev grown : Captured
  grown = push_chunk stream chunk (count_bytes stream (length chunk) c)

  counted-grown : counted_bytes grown ≡ counted_bytes c + length chunk
  counted-grown =
      counted-push_chunk stream chunk (count_bytes stream (length chunk) c)
      ∙ counted-count_bytes stream (length chunk) c

  kept-grown : kept_bytes grown ≡ kept_bytes c + length chunk
  kept-grown =
      kept-push_chunk stream chunk (count_bytes stream (length chunk) c)
      ∙ ap (λ n. n + length chunk) (kept-count_bytes stream (length chunk) c)

  exceeded-grown : grown.output_limit_exceeded ≡ c.output_limit_exceeded
  exceeded-grown =
      exceeded-push_chunk stream chunk (count_bytes stream (length chunk) c)
      ∙ exceeded-count_bytes stream (length chunk) c

  IsComplete-cons :
      (d : Captured) → IsComplete max grown rest d → IsComplete max c ((stream, chunk) ∷ rest) d
  IsComplete-cons d k =
      let (out, errors) =
        chunks-push_chunk stream chunk rest (count_bytes stream (length chunk) c) in
      let (same_out, same_errors) = chunks-count_bytes stream (length chunk) c in
      record {
        exceeded = k.exceeded;
        within = omega (arith, k.within, counted-grown);
        out =
            k.out
            ∙ out
            ∙ ap (λ cs. concat cs ++ read_from stdout ((stream, chunk) ∷ rest)) same_out;
        errors =
            k.errors
            ∙ errors
            ∙ ap (λ cs. concat cs ++ read_from stderr ((stream, chunk) ∷ rest)) same_errors;
      }

  IsCut-cons : (d : Captured) → IsCut max grown rest d → IsCut max c ((stream, chunk) ∷ rest) d
  IsCut-cons d k = record {
    exceeded = k.exceeded;
    beyond = omega (arith, k.beyond, counted-grown);
    kept = k.kept;
  }

at_most_or_more : (n m : ℕ) → (n ≤ m) ⊎ (m < n)
at_most_or_more n m = ground arith

pub capture_all-cases :
    (max : ℕ) (chunks : List (Stream × List ℕ)) (c : Captured)
    → c.output_limit_exceeded ≡ false
    → kept_bytes c ≡ counted_bytes c
    → counted_bytes c ≤ max
    → IsComplete max c chunks (capture_all max chunks c)
      ⊎ IsCut max c chunks (capture_all max chunks c)
unfolding capture_all
capture_all-cases max [] c h same within = inl (record {
  exceeded = h;
  within = omega arith;
  out = sym (append-nil (concat c.stdout_chunks));
  errors = sym (append-nil (concat c.stderr_chunks));
})
capture_all-cases max ((stream, chunk) ∷ rest) c h same within =
    elim (at_most_or_more (counted_bytes c + length chunk) max) [
      | inl fits ↦
          let again =
            sym (ap (capture_all max rest) (capture_chunk-within max stream chunk c h fits)) in
          elim (capture_all-cases max rest (grown max stream chunk rest c)
            (exceeded-grown max stream chunk rest c ∙ h)
            (omega
              (arith, kept-grown max stream chunk rest c, counted-grown max stream chunk rest c))
            (omega (arith, counted-grown max stream chunk rest c))) [
              | inl k ↦ inl (
                  subst (IsComplete max c ((stream, chunk) ∷ rest)) again
                    (IsComplete-cons max stream chunk rest c _ k))
              | inr k ↦ inr (
                  subst (IsCut max c ((stream, chunk) ∷ rest)) again
                    (IsCut-cons max stream chunk rest c _ k))
            ]
      | inr large ↦
          let stopped =
            ap (capture_all max rest) (capture_chunk-beyond max stream chunk c h large)
            ∙ capture_all-exceeded max rest _ refl in
          inr (
            subst (IsCut max c ((stream, chunk) ∷ rest)) (sym stopped) (record {
              exceeded = refl;
              beyond = omega arith;
              kept = omega (arith, kept-count_bytes stream (length chunk) c);
            }))
    ]
