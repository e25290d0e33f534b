-- ===== src/Server/Recorder/Refine.antt =====
-- What the recorder knows in the end, told from the calls alone.
use yet_another_memory_bank.Common.{
  ℕ, zero, suc, ◌+◌, ◌-◌, ◌≡◌, refl, sym, ap, ◌∙◌, inl, inr, true, false, List, [], ◌∷◌, ◌++◌,
  arith, Bool-cases, if◌then◌else◌, ltb, ltb→lt, if_elim, length, take, ◌≤◌,
}
use mathlib.Core.Path.{subst}
use mathlib.Core.List.{append_assoc, append-nil}
use yet_another_memory_bank.Server.Recorder.{
  StatusRecorder, new_recorder, write_header, keep_preview, write, WriterCall, header, body,
  record_calls,
}

-- all the bytes written
abbrev pub bytes_of : List WriterCall → List ℕ
bytes_of [] = []
bytes_of (header status ∷ calls) = bytes_of calls
bytes_of (body bytes n ∷ calls) = bytes ++ bytes_of calls

abbrev pub written : List WriterCall → ℕ
written [] = 0
written (header status ∷ calls) = written calls
written (body bytes n ∷ calls) = n + written calls

-- the status of the first call, which is 200 for a write, and for no call
abbrev pub first_status : List WriterCall → ℕ
first_status [] = 200
first_status (header status ∷ calls) = status
first_status (body bytes n ∷ calls) = 200

-- the statuses that the underlying writer is told
abbrev pub told : List WriterCall → List ℕ
told [] = []
told (c ∷ calls) = first_status (c ∷ calls) ∷ []

take-append {ℓ} :
    {A : Type ℓ} (n : ℕ) (xs ys : List A)
    → take n (xs ++ ys) ≡ take n xs ++ take (n - length (take n xs)) ys
take-append zero xs ys = refl
take-append (suc n) [] ys = let e : suc n ≡ suc n - 0 = omega arith in ap (λ k. take k ys) e
take-append (suc n) (x ∷ xs) ys =
    ap (λ zs. x ∷ zs)
      (take-append n xs ys
        ∙ (let e : n - length (take n xs) ≡ suc n - suc (length (take n xs)) = omega arith in
            ap (λ k. take n xs ++ take k ys) e))

take-all {ℓ} : {A : Type ℓ} (n : ℕ) (xs : List A) → length xs ≤ n → take (length xs) xs ≡ take n xs
take-all zero [] h = refl
take-all zero (x ∷ xs) h = absurd (omega arith)
take-all (suc n) [] h = refl
take-all (suc n) (x ∷ xs) h = ap (λ zs. x ∷ zs) (take-all n xs (omega arith))

-- the bound of the slice
fits-take :
    (room : ℕ) (bytes : List ℕ)
    → take (if ltb (length bytes) room then length bytes else room) bytes ≡ take room bytes
fits-take room bytes = elim (Bool-cases (ltb (length bytes) room)) [
  | inl e ↦ rw e (take-all room bytes (omega (arith, ltb→lt (length bytes) room e)))
  | inr e ↦ rw e refl
]

room-none : (n k : ℕ) → ltb n k ≡ false → k - n ≡ 0
room-none n k h = ground arith

keep_preview-take :
    (r : StatusRecorder) (before bytes : List ℕ)
    → r.preview ≡ take 512 before
    → (keep_preview r bytes).preview ≡ take 512 (before ++ bytes)
unfolding keep_preview
keep_preview-take r before bytes h = elim (Bool-cases (ltb (length r.preview) 512)) [
  | inl e ↦ rw e (
      ap (λ ys. r.preview ++ ys) (fits-take (512 - length r.preview) bytes)
      ∙ ap (λ ys. ys ++ take (512 - length ys) bytes) h
      ∙ sym (take-append 512 before bytes))
  | inr e ↦ rw e (
      sym (append-nil r.preview)
      ∙ ap (λ k. r.preview ++ take k bytes) (sym (room-none (length r.preview) 512 e))
      ∙ ap (λ ys. ys ++ take (512 - length ys) bytes) h
      ∙ sym (take-append 512 before bytes))
]

header-preview : (r : StatusRecorder) (s : ℕ) → (write_header r s).preview ≡ r.preview
unfolding write_header
header-preview r s =
    if_elim (λ (t : StatusRecorder). t.preview ≡ r.preview) r.wrote_header r _ refl refl

started : StatusRecorder → StatusRecorder
started r = if r.wrote_header then r else write_header r 200

started-preview : (r : StatusRecorder) → (started r).preview ≡ r.preview
unfolding started
started-preview r =
    if_elim (λ (t : StatusRecorder). t.preview ≡ r.preview) r.wrote_header r (write_header r 200)
      refl (header-preview r 200)

write-preview :
    (r : StatusRecorder) (before bytes : List ℕ) (n : ℕ)
    → r.preview ≡ take 512 before
    → (write r bytes n).preview ≡ take 512 (before ++ bytes)
unfolding write started
write-preview r before bytes n h =
    keep_preview-take (started r) before bytes (started-preview r ∙ h)

-- The recorder after calls that wrote `before`.
record_calls-preview :
    (r : StatusRecorder) (before : List ℕ) (calls : List WriterCall)
    → r.preview ≡ take 512 before
    → (record_calls r calls).preview ≡ take 512 (before ++ bytes_of calls)
unfolding record_calls
record_calls-preview r before [] h = h ∙ ap (take 512) (sym (append-nil before))
record_calls-preview r before (header s ∷ calls) h =
    record_calls-preview (write_header r s) before calls (header-preview r s ∙ h)
record_calls-preview r before (body bytes n ∷ calls) h =
    record_calls-preview (write r bytes n) (before ++ bytes) calls
      (write-preview r before bytes n h)
    ∙ ap (take 512) (append_assoc before bytes (bytes_of calls))

-- Two recorders that differ in the preview and in the number of bytes only.
abbrev SameHeader : StatusRecorder → StatusRecorder → Type 0
SameHeader t r = (t.status ≡ r.status) × ((t.sent ≡ r.sent) × (t.wrote_header ≡ r.wrote_header))

keep_preview-SameHeader :
    (r : StatusRecorder) (bytes : List ℕ)
    → SameHeader (keep_preview r bytes) r × ((keep_preview r bytes).bytes ≡ r.bytes)
unfolding keep_preview
keep_preview-SameHeader r bytes =
    if_elim (λ (t : StatusRecorder). SameHeader t r × (t.bytes ≡ r.bytes))
      (ltb (length r.preview) 512) _ r ((refl, (refl, refl)), refl) ((refl, (refl, refl)), refl)

write_header-twice : (r : StatusRecorder) (s : ℕ) → r.wrote_header ≡ true → write_header r s ≡ r
unfolding write_header
write_header-twice r s h = rw h refl

write-started :
    (r : StatusRecorder) (bytes : List ℕ) (n : ℕ)
    → SameHeader (write r bytes n) (started r) × ((write r bytes n).bytes ≡ (started r).bytes + n)
unfolding write started
write-started r bytes n =
    let k = keep_preview-SameHeader (started r) bytes in (k.0, ap (λ b. b + n) k.1)

started-eq : (r : StatusRecorder) → r.wrote_header ≡ true → started r ≡ r
unfolding started
started-eq r h = rw h refl

-- Once the header is written, the status stays.
record_calls-started :
    (r : StatusRecorder) (calls : List WriterCall)
    → r.wrote_header ≡ true
    → ((record_calls r calls).status ≡ r.status)
      × (((record_calls r calls).sent ≡ r.sent)
          × ((record_calls r calls).bytes ≡ r.bytes + written calls))
unfolding record_calls
record_calls-started r [] h = (refl, (refl, omega arith))
record_calls-started r (header s ∷ calls) h =
    subst
      (λ (t : StatusRecorder).
        ((record_calls t calls).status ≡ r.status)
        × (((record_calls t calls).sent ≡ r.sent)
            × ((record_calls t calls).bytes ≡ r.bytes + written calls)))
      (sym (write_header-twice r s h)) (record_calls-started r calls h)
record_calls-started r (body bytes n ∷ calls) h =
    let w : SameHeader (write r bytes n) r × ((write r bytes n).bytes ≡ r.bytes + n) =
      subst (λ t. SameHeader (write r bytes n) t × ((write r bytes n).bytes ≡ t.bytes + n))
        (started-eq r h) (write-started r bytes n) in
    let k = record_calls-started (write r bytes n) calls (w.0.1.1 ∙ h) in
    (k.0 ∙ w.0.0, (k.1.0 ∙ w.0.1.0, omega (arith, k.1.1, w.1)))

-- In the end, whatever the handler calls, the status is that of its first call, and the underlying writer
-- is told that one alone; the count is the number of bytes that were written, and the preview the first 512
-- of the bytes that the handler gave.
pub record_calls_lem :
    (calls : List WriterCall)
    → let r = record_calls new_recorder calls in
      (r.status ≡ first_status calls)
      × ((r.sent ≡ told calls)
          × ((r.bytes ≡ written calls) × (r.preview ≡ take 512 (bytes_of calls))))
unfolding record_calls write_header started
record_calls_lem [] = (refl, (refl, (refl, refl)))
record_calls_lem (header s ∷ calls) =
    let k = record_calls-started (write_header new_recorder s) calls refl in
    (
      k.0,
      (k.1.0, (k.1.1 ∙ omega arith, record_calls-preview new_recorder [] (header s ∷ calls) refl)),
    )
record_calls_lem (body bytes n ∷ calls) =
    let w = write-started new_recorder bytes n in
    let k = record_calls-started (write new_recorder bytes n) calls w.0.1.1 in
    (
      k.0 ∙ w.0.0,
      (
        k.1.0 ∙ w.0.1.0,
        (
          omega (arith, k.1.1, w.1),
          record_calls-preview new_recorder [] (body bytes n ∷ calls) refl,
        ),
      ),
    )
