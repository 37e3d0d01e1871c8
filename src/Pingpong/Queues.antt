-- ===== src/Pingpong/Queues.antt =====
-- What lab utilities/pingpong.c relies on of pipes.
use lab_utilities.Base.{
  ℕ, ◌≡◌, ◌≢◌, ◌⊎◌, inl, inr, refl, sym, ap, ◌∙◌, fun_ext, List, [], ◌∷◌, ◌++◌, Option, none, some,
  ◌==◌, if◌then◌else◌, Bool-cases, ==_iff, ==_ne,
}
use lab_utilities.Pingpong.{Process, Channel, Pipes, State, run}

-- read waits while a pipe is empty, and takes its first byte otherwise; write adds a byte at the end,
-- and fails once no process has the reading end open.
pub record IsPipes (p : Pipes) : Type 0 where
  pub waits : (c : Channel) → c.bytes ≡ [] → p.read c ≡ none
  pub reads :
      (c : Channel) (b : ℕ) (bs : List ℕ)
      → c.bytes ≡ b ∷ bs
      → p.read c ≡ some (record c { bytes = bs })
  pub writes :
      (c : Channel) (b : ℕ) → c.readers ≢ 0 → p.write b c ≡ record c { bytes = c.bytes ++ b ∷ [] }
  pub fails : (c : Channel) (b : ℕ) → c.readers ≡ 0 → p.write b c ≡ c

abbrev first_of : List ℕ → Channel → Option Channel
first_of [] c = none
first_of (b ∷ bs) c = some (record c { bytes = bs })

-- Pipes that do just that.
abbrev pub queues : Pipes
queues = record {
  read = λ c. first_of c.bytes c;
  write = λ b c. if c.readers == 0 then c else record c { bytes = c.bytes ++ b ∷ [] };
}

List-cases {ℓ} : {A : Type ℓ} (xs : List A) → (xs ≡ []) ⊎ ((y : A) × (ys : List A) × (xs ≡ y ∷ ys))
List-cases [] = inl refl
List-cases (x ∷ xs) = inr (x, xs, refl)

pub queues-IsPipes : IsPipes queues
queues-IsPipes = record {
  waits = λ c e. ap (λ (bs : List ℕ). first_of bs c) e;
  reads = λ c b bs e. ap (λ (cs : List ℕ). first_of cs c) e;
  writes = λ c b ne. rw (==_ne c.readers 0 ne);
  fails = λ c b e. rw e;
}

same_fields :
    (r s : Channel → Option Channel) (v w : ℕ → Channel → Channel)
    → r ≡ s
    → v ≡ w
    → ◌≡◌ {A = Pipes} (record { read = r; write = v }) (record { read = s; write = w })
same_fields r s v w e k =
    ap (λ x. record { read = x; write = v }) e ∙ ap (λ y. record { read = s; write = y }) k

module _ (p : Pipes) (is : IsPipes p) where
  same_read : (c : Channel) → p.read c ≡ queues.read c
  same_read c = elim (List-cases c.bytes) [
    | inl e ↦ is.waits c e ∙ sym (queues-IsPipes.waits c e)
    | inr (b, bs, e) ↦ is.reads c b bs e ∙ sym (queues-IsPipes.reads c b bs e)
  ]

  same_write : (b : ℕ) (c : Channel) → p.write b c ≡ queues.write b c
  same_write b c = elim (Bool-cases (c.readers == 0)) [
    | inl e ↦ rw e (is.fails c b ((==_iff c.readers 0).0 e))
    | inr e ↦ rw e (is.writes c b (λ z. cc (e, (==_iff c.readers 0).1 z)))
  ]

  same_pipes : p ≡ queues
  same_pipes =
      same_fields p.read queues.read p.write queues.write (fun_ext same_read)
        (fun_ext (λ b. fun_ext (same_write b)))

  -- All pipes that do this are alike.
  pub run-queues : (ws : List Process) (s : State) → run p ws s ≡ run queues ws s
  run-queues ws s = ap (λ (q : Pipes). run q ws s) same_pipes
