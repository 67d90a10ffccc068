-- ===== src/Vm/Frames/Clock.antt =====
-- frame_table_pop_lru of vm/frame_table.c: two passes of a clock over the frames.
use implso.Prelude.{
  ℕ, ◌≡◌, ◌≢◌, refl, sym, ap, ◌∙◌, true, false, List, [], ◌∷◌, Option, none, some, arith, ltb, ◌==◌,
  Bool-cases, inl, inr,
}
use implso.Kernel.Queue.{has, remove}
use implso.Vm.Pages.{SupPage, put_page}
use implso.Vm.Frames
use implso.Vm.Frames.{Frames, is_candidate, is_accessed, pass_step, pass_loop, pop_lru}

-- A state of the frames later in a pass: the same entries, of which none is newly accessed.
pub record Later (f f' : Frames) : Type 0 where
  pub table : f'.table ≡ f.table
  pub candidates : (x : ℕ) → is_candidate f' x ≡ is_candidate f x
  pub cleared : (x : ℕ) → is_accessed f x ≡ false → is_accessed f' x ≡ false

Later-refl : (f : Frames) → Later f f
Later-refl f = record { table = refl; candidates = λ x. refl; cleared = λ x e. e }

Later-trans : {f g h : Frames} → Later f g → Later g h → Later f h
Later-trans p q = record {
  table = q.table ∙ p.table;
  candidates = λ x. q.candidates x ∙ p.candidates x;
  cleared = λ x e. q.cleared x (p.cleared x e);
}

-- What pagedir_set_accessed and the new time leave of an entry.
touched_vaddr :
    (pages : ℕ → SupPage) (a now y : ℕ)
    → (put_page a (record (pages a) { access_time = now }) pages y).user_vaddr
      ≡ (pages y).user_vaddr
touched_vaddr pages a now y = elim (Bool-cases (y == a)) [
  | inl e ↦ let q : y ≡ a = ground arith in rw (e, q)
  | inr e ↦ rw e
]

touched_loaded :
    (pages : ℕ → SupPage) (a now y : ℕ)
    → (put_page a (record (pages a) { access_time = now }) pages y).is_loaded ≡ (pages y).is_loaded
touched_loaded pages a now y = elim (Bool-cases (y == a)) [
  | inl e ↦ let q : y ≡ a = ground arith in rw (e, q)
  | inr e ↦ rw e
]

clear_accessed-Later : (now fte : ℕ) (f : Frames) → Later f (Frames.clear_accessed now fte f)
unfolding Frames.clear_accessed is_candidate is_accessed
clear_accessed-Later now fte f = record {
  table = refl;
  candidates = λ x. rw (touched_loaded f.pages (f.entries fte).aux now (f.entries x).aux) refl;
  cleared = λ x e.
      rw (touched_vaddr f.pages (f.entries fte).aux now (f.entries x).aux) (ground (arith, e));
}

clear_accessed_self :
    (now fte : ℕ) (f : Frames) → is_accessed (Frames.clear_accessed now fte f) fte ≡ false
unfolding Frames.clear_accessed is_accessed
clear_accessed_self now fte f =
    rw (touched_vaddr f.pages (f.entries fte).aux now (f.entries fte).aux) (ground arith)

-- A choice that is none yet, or a frame of the list that may be evicted and is not accessed.
pub data Choice (f : Frames) (xs : List ℕ) : Option ℕ → Type 0 where
  none_yet : Choice f xs none
  chosen :
      (x : ℕ)
      → has x xs ≡ true
      → is_candidate f x ≡ true
      → is_accessed f x ≡ false
      → Choice f xs (some x)

Choice-Later :
    {f f' : Frames} {xs : List ℕ} {o : Option ℕ} → Later f f' → Choice f xs o → Choice f' xs o
Choice-Later l none_yet = none_yet
Choice-Later l (chosen x i c a) = chosen x i (l.candidates x ∙ c) (l.cleared x a)

-- A pass over `xs` from the frames `f`, with a choice from `all`.
record Passed (o : Option ℕ) (f : Frames) (xs all : List ℕ) (r : Option ℕ × Frames) : Type 0 where
  stays : r.0 ≡ none → o ≡ none
  later : Later f r.1
  choice : Choice r.1 all r.0
  swept :
      r.0 ≡ none
      → (x : ℕ) → has x xs ≡ true
      → is_candidate f x ≡ true
      → (is_accessed f x ≡ true) × (is_accessed r.1 x ≡ false)

older_some : (f : Frames) (y : ℕ) (o : Option ℕ) → Frames.older f y o ≢ none
unfolding Frames.older
older_some f y none = λ e. cc
older_some f y (some x) = λ e. ground (arith, e)

older-Choice :
    (f : Frames) (y : ℕ) (o : Option ℕ) (all : List ℕ)
    → has y all ≡ true
    → is_candidate f y ≡ true
    → is_accessed f y ≡ false
    → Choice f all o
    → Choice f all (Frames.older f y o)
unfolding Frames.older
older-Choice f y none all i g a c = chosen y i g a
older-Choice f y (some x) all i g a c =
    elim (Bool-cases (ltb (Frames.time_of f y) (Frames.time_of f x))) [
      | inl e ↦ rw e (chosen y i g a)
      | inr e ↦ rw e c
    ]

pass_loop_lem :
    (now : ℕ) (xs all : List ℕ) (o : Option ℕ) (f : Frames)
    → ((x : ℕ) → has x xs ≡ true → has x all ≡ true)
    → Choice f all o
    → Passed o f xs all (pass_loop now xs (o, f))
unfolding pass_loop pass_step
pass_loop_lem now [] all o f sub c = record {
  stays = λ e. e;
  later = Later-refl f;
  choice = c;
  swept = λ e x i. absurd (ground (arith, i));
}
pass_loop_lem now (y ∷ xs) all o f sub c = elim (Bool-cases (is_candidate f y)) [
  | inr other ↦
      rw (pass_step, other)
        (skip other (pass_loop_lem now xs all o f (λ x i. sub x (ground (arith, i))) c))
  | inl good ↦ elim (Bool-cases (is_accessed f y)) [
    | inl recent ↦
        rw (pass_step, good, recent)
          (clear recent (
            pass_loop_lem now xs all o (Frames.clear_accessed now y f)
              (λ x i. sub x (ground (arith, i))) (Choice-Later (clear_accessed-Later now y f) c)))
    | inr old ↦
        rw (pass_step, good, old)
          (choose (
            pass_loop_lem now xs all (Frames.older f y o) f (λ x i. sub x (ground (arith, i)))
              (older-Choice f y o all (sub y (ground arith)) good old c)))
  ]
]
  where
    skip :
        {r : Option ℕ × Frames}
        → is_candidate f y ≡ false
        → Passed o f xs all r
        → Passed o f (y ∷ xs) all r
    skip other p = record {
      stays = p.stays;
      later = p.later;
      choice = p.choice;
      swept = λ e x i g. p.swept e x (ground (arith, i, g, other)) g;
    }

    clear :
        {r : Option ℕ × Frames}
        → is_accessed f y ≡ true
        → Passed o (Frames.clear_accessed now y f) xs all r
        → Passed o f (y ∷ xs) all r
    clear recent p =
        let l = clear_accessed-Later now y f in
        record {
          stays = p.stays;
          later = Later-trans l p.later;
          choice = p.choice;
          swept = λ e x i g. elim (Bool-cases (y == x)) [
            | inl here ↦
                let q : y ≡ x = ground arith in
                ground (arith, q, recent, p.later.cleared y (clear_accessed_self now y f))
            | inr there ↦
                let t = p.swept e x (ground (arith, i, there)) (l.candidates x ∙ g) in
                ground (arith, t.0, t.1, l.cleared x)
          ];
        }

    choose :
        {r : Option ℕ × Frames} → Passed (Frames.older f y o) f xs all r → Passed o f (y ∷ xs) all r
    choose p = record {
      stays = λ e. absurd (older_some f y o (p.stays e));
      later = p.later;
      choice = p.choice;
      swept = λ e x i g. absurd (older_some f y o (p.stays e));
    }

-- What frame_table_pop_lru gives: a frame of the table that may be evicted and is not accessed, taken
-- out of the table; or none, where no frame may be evicted.
pub data Victim (f : Frames) : Option ℕ × Frames → Type 0 where
  no_victim :
      (f' : Frames)
      → ((x : ℕ) → has x f.table ≡ true → is_candidate f x ≡ false)
      → f'.table ≡ f.table
      → Victim f (none, f')
  victim :
      (x : ℕ) (f' : Frames)
      → has x f.table ≡ true
      → is_candidate f x ≡ true
      → is_accessed f' x ≡ false
      → f'.table ≡ remove x f.table
      → Victim f (some x, f')

found :
    {f f' : Frames} {o : Option ℕ} (x : ℕ)
    → o ≡ some x
    → Later f f'
    → Choice f' f.table o
    → Victim f (some x, Frames.remove x f')
unfolding Frames.remove is_accessed
found x e l none_yet = absurd (ground (arith, e))
found {f} {f'} x e l (chosen y i c a) =
    let q : y ≡ x = ground (arith, e) in
    rw (sym q)
      (victim y (Frames.remove y f') i (sym (l.candidates y) ∙ c) a (ap (remove y) l.table))

module _ (now : ℕ) (f : Frames) where
  after_two :
      {f1 : Frames} (r : Option ℕ × Frames)
      → Passed none f f.table f.table (none, f1)
      → Passed none f1 f1.table f.table r
      → Victim f (Frames.take_out r)
  unfolding Frames.take_out
  after_two (some x, f2) p q = found x refl (Later-trans p.later q.later) q.choice
  after_two (none, f2) p q =
      no_victim f2
        (λ x i. elim (Bool-cases (is_candidate f x)) [
          | inl g ↦
              let s = p.swept refl x i g in
              let t = q.swept refl x (ap (has x) p.later.table ∙ i) (p.later.candidates x ∙ g) in
              absurd (ground (arith, s.1, t.0))
          | inr e ↦ e
        ])
        (Later-trans p.later q.later).table

  after_one :
      (r : Option ℕ × Frames)
      → Passed none f f.table f.table r
      → Victim f (Frames.take_out (Frames.second_pass now r))
  unfolding Frames.second_pass Frames.take_out
  after_one (some x, f1) p = found x refl p.later p.choice
  after_one (none, f1) p = after_two _ p (
      pass_loop_lem now f1.table f.table none f1 (λ x i. sym (ap (has x) p.later.table) ∙ i)
        none_yet)

  -- frame_table_pop_lru finds a frame wherever one may be evicted, within its two passes: it
  -- returns none only if every entry is without a loaded page or a page directory, and leaves the
  -- list then. The entry that it returns was in the list and may be evicted, its page is not
  -- accessed any more, and the list is the former one without it.
  pub pop_lru_lem : Victim f (pop_lru now f)
  unfolding pop_lru
  pop_lru_lem = after_one _ (pass_loop_lem now f.table f.table none f (λ x i. i) none_yet)
