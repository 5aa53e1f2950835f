-- ===== src/Busy/Tracker.antt =====
-- `BusyTracker`: the critical operations that are in flight, by a number of their own. Requests
-- begin and end in any order, so a life of the tracker is a list of events.
use barhandler_manager.Prelude.{
  ℕ, suc, ◌+◌, ◌≤◌, String, ◌≡◌, refl, sym, ◌∙◌, append-nil, ap, Bool, false, ◌||◌, Option, none,
  some, List, [], ◌∷◌, ◌++◌, arith, contains, ◌==◌, nat_eq, string_eq, if◌then◌else◌, append_assoc,
  Bool-cases, inl, inr,
}
use text.Mathlib.TextEquality.{eq_iff}

-- `_active` in the order of insertion, and the next number of `_ids`.
pub record Tracker : Type 0 where
  pub active : List (ℕ × String)
  pub next_id : ℕ

-- `BusyTracker()`
abbrev pub idle : Tracker
idle = record { active = []; next_id = 0 }

-- `hold(label)` on the way in, with the number that the operation gets
unfoldable pub enter : String → Tracker → ℕ × Tracker
enter label t =
    (t.next_id, record { active = t.active ++ (t.next_id, label) ∷ []; next_id = suc t.next_id })

-- `dict.pop(op_id, None)`
unfoldable pub drop_id : ℕ → List (ℕ × String) → List (ℕ × String)
drop_id n [] = []
drop_id n ((k, l) ∷ rest) =
    let others = drop_id n rest in if k == n then others else (k, l) ∷ others

-- `hold(label)` on the way out, after success and after an error alike
unfoldable pub leave : ℕ → Tracker → Tracker
unfolding drop_id
leave n t = record t { active = drop_id n t.active }

-- `labels` of `why_busy`: each once, in the order of first appearance
unfoldable pub distinct : List String → List (ℕ × String) → List String
distinct labels [] = labels
distinct labels ((k, l) ∷ rest) =
    distinct (if contains labels l then labels else labels ++ l ∷ []) rest

-- `why_busy`, before its labels are joined by commas
unfoldable pub why_busy : Tracker → Option (List String)
unfolding distinct
why_busy t = elim (distinct [] t.active) [ [] ↦ none | l ∷ ls ↦ some (l ∷ ls) ]

-- A request that begins, with its label, or one that ends, with the number that it got.
pub data Event : Type 0 where
  begins : String → Event
  ends : ℕ → Event

pub step : Event → Tracker → Tracker
unfolding enter leave
step (begins label) t = (enter label t).1
step (ends n) t = leave n t

pub run : List Event → Tracker → Tracker
run [] t = t
run (e ∷ es) t = run es (step e t)

-- The operations that began and have not ended, told from the events alone: the number of the
-- next operation, and whether an end of it comes later.
ended : ℕ → List Event → Bool
ended n [] = false
ended n (begins label ∷ es) = ended n es
ended n (ends k ∷ es) = k == n || ended n es

pub in_flight : ℕ → List Event → List (ℕ × String)
unfolding ended
in_flight n [] = []
in_flight n (begins label ∷ es) =
    let rest = in_flight (suc n) es in if ended n es then rest else (n, label) ∷ rest
in_flight n (ends k ∷ es) = in_flight n es

-- What is left of `held` when the ends among the events are taken out.
survivors : List (ℕ × String) → List Event → List (ℕ × String)
survivors [] es = []
survivors ((k, l) ∷ held) es =
    let rest = survivors held es in if ended k es then rest else (k, l) ∷ rest

survivors-append :
    (xs ys : List (ℕ × String)) (es : List Event)
    → survivors (xs ++ ys) es ≡ survivors xs es ++ survivors ys es
unfolding survivors
survivors-append [] ys es = refl
survivors-append ((k, l) ∷ xs) ys es = ground (arith, survivors-append xs ys es)

survivors-begins :
    (xs : List (ℕ × String)) (label : String) (es : List Event)
    → survivors xs (begins label ∷ es) ≡ survivors xs es
unfolding survivors ended
survivors-begins [] label es = refl
survivors-begins ((k, l) ∷ xs) label es = rw (survivors-begins xs label es)

survivors-ends :
    (xs : List (ℕ × String)) (n : ℕ) (es : List Event)
    → survivors xs (ends n ∷ es) ≡ survivors (drop_id n xs) es
unfolding survivors ended drop_id
survivors-ends [] n es = refl
survivors-ends ((k, l) ∷ xs) n es = ground (arith, survivors-ends xs n es)

survivors-nil : (xs : List (ℕ × String)) → survivors xs [] ≡ xs
unfolding survivors ended
survivors-nil [] = refl
survivors-nil (x ∷ xs) = rw (survivors-nil xs)

survivors-one :
    (n : ℕ) (label : String) (es : List Event) (rest : List (ℕ × String))
    → survivors ((n, label) ∷ []) es ++ rest ≡ (if ended n es then rest else (n, label) ∷ rest)
unfolding survivors
survivors-one n label es rest = ground arith

run-survivors :
    (es : List Event) (t : Tracker)
    → (run es t).active ≡ survivors t.active es ++ in_flight t.next_id es
unfolding run step in_flight
run-survivors [] t = rw (survivors-nil t.active) (sym (append-nil t.active))
run-survivors (begins label ∷ es) t =
    let n = t.next_id in
    run-survivors es _
    ∙ rw
        (
          survivors-append t.active ((n, label) ∷ []) es,
          append_assoc (survivors t.active es),
          survivors-begins t.active label es,
        )
        (ap (λ xs. survivors t.active es ++ xs) (survivors-one n label es (in_flight (suc n) es)))
run-survivors (ends n ∷ es) t = rw (survivors-ends t.active n es) (run-survivors es (leave n t))

-- Whatever requests begin and end, in any order, the tracker holds exactly those that began and
-- have not ended, with their labels, in the order in which they began.
pub run-in_flight : (es : List Event) → (run es idle).active ≡ in_flight 0 es
run-in_flight es = run-survivors es idle ∙ unfold survivors in refl

abbrev pub labels : List (ℕ × String) → List String
labels [] = []
labels ((k, l) ∷ rest) = l ∷ labels rest

-- How often a text stands in a list.
abbrev pub count : String → List String → ℕ
count a [] = 0
count a (x ∷ xs) = if a == x then suc (count a xs) else count a xs

contains-append :
    (xs : List String) (x a : String) → contains (xs ++ x ∷ []) a ≡ (contains xs a || a == x)
contains-append [] x a = ground arith
contains-append (y ∷ xs) x a = ground (arith, contains-append xs x a)

contains-distinct :
    (ls : List String) (xs : List (ℕ × String)) (a : String)
    → contains (distinct ls xs) a ≡ (contains ls a || contains (labels xs) a)
unfolding distinct
contains-distinct ls [] a = ground arith
contains-distinct ls ((k, l) ∷ xs) a = elim (Bool-cases (contains ls l)) [
  | inl e ↦ rw e (contains-distinct ls xs a ∙ ground (arith, eq_iff a l, e))
  | inr e ↦ rw e (contains-distinct (ls ++ l ∷ []) xs a ∙ ground (arith, contains-append ls l a))
]

count-append :
    (xs : List String) (x a : String) → count a (xs ++ x ∷ []) ≡ count a xs + count a (x ∷ [])
count-append [] x a = omega arith
count-append (y ∷ xs) x a = ground (arith, count-append xs x a)

count-pos : (xs : List String) (a : String) → contains xs a ≡ false → count a xs ≡ 0
count-pos [] a h = refl
count-pos (y ∷ xs) a h = ground (arith, count-pos xs a)

count-distinct :
    (ls : List String) (xs : List (ℕ × String)) (a : String)
    → count a ls ≤ 1
    → count a (distinct ls xs) ≤ 1
unfolding distinct
count-distinct ls [] a h = h
count-distinct ls ((k, l) ∷ xs) a h = elim (Bool-cases (contains ls l)) [
  | inl e ↦ rw e (count-distinct ls xs a h)
  | inr e ↦ rw e (
      count-distinct (ls ++ l ∷ []) xs a
        (ground (arith, count-append ls l a, count-pos ls l e, eq_iff a l, h)))
]

-- The labels of a refusal, none for a free tracker.
abbrev pub named : Option (List String) → List String
named none = []
named (some ls) = ls

named-why_busy : (t : Tracker) → named (why_busy t) ≡ distinct [] t.active
unfolding why_busy
named-why_busy t = ground arith

-- After any requests, the refusal names a label exactly when an operation of that label has begun
-- and not ended, and names no label twice.
pub why_busy_exact :
    (es : List Event) (a : String)
    → (contains (named (why_busy (run es idle))) a ≡ contains (labels (in_flight 0 es)) a)
      × (count a (named (why_busy (run es idle))) ≤ 1)
why_busy_exact es a = (
  rw (named-why_busy (run es idle), run-in_flight es) (contains-distinct [] (in_flight 0 es) a),
  rw (named-why_busy (run es idle)) (count-distinct [] _ a (omega arith)),
)
