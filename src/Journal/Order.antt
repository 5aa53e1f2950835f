-- ===== src/Journal/Order.antt =====
-- The numbers of the rows in memory: they grow, and none is above the sequence. `record` and
-- `page` keep that.
use barhandler_manager.Prelude.{
  ℕ, zero, suc, ◌+◌, ◌-◌, ◌≤◌, String, ◌≡◌, refl, Bool, List, [], ◌∷◌, ◌++◌, arith, length, drop,
  length-drop, Bool-cases, inl, inr,
}
use barhandler_manager.Prelude.Int.{ℤ, pos, ◌≤ℤ◌, ◌<ℤ◌}
use barhandler_manager.Json.Codec.{Codec}
use barhandler_manager.Journal.Rows.{
  Row, Journal, Deed, Append, done, last_rows, record_row, compact, append_row, entry_of,
  keep_entry, written, is_blank,
}

-- The numbers of `rows` grow from above `lo` up to `hi` at most.
abbrev pub Climbs : ℤ → List Row → ℤ → Type 0
Climbs lo [] hi = lo ≤ℤ hi
Climbs lo (r ∷ rs) hi = (lo <ℤ r.seq) × Climbs r.seq rs hi

-- The same, from wherever the first row stands.
abbrev pub Ordered : List Row → ℤ → Type 0
Ordered [] hi = Unit
Ordered (r ∷ rs) hi = Climbs r.seq rs hi

pub record IsOrdered (j : Journal) : Type 0 where
  pub ordered : Ordered j.entries (pos j.seq)
  pub short : length j.entries ≤ j.limit

pub Climbs-weaken :
    (lo lo' : ℤ) (rs : List Row) (hi : ℤ) → lo' ≤ℤ lo → Climbs lo rs hi → Climbs lo' rs hi
Climbs-weaken lo lo' [] hi h c = omega arith
Climbs-weaken lo lo' (r ∷ rs) hi h c = (omega arith, c.1)

pub Climbs-raise :
    (lo : ℤ) (rs : List Row) (hi hi' : ℤ) → hi ≤ℤ hi' → Climbs lo rs hi → Climbs lo rs hi'
Climbs-raise lo [] hi hi' h c = omega arith
Climbs-raise lo (r ∷ rs) hi hi' h c = (c.0, Climbs-raise r.seq rs hi hi' h c.1)

pub Climbs_range : (lo : ℤ) (rs : List Row) (hi : ℤ) → Climbs lo rs hi → lo ≤ℤ hi
Climbs_range lo [] hi c = c
Climbs_range lo (r ∷ rs) hi c = omega (arith, Climbs_range r.seq rs hi c.1)

Climbs-append :
    (lo : ℤ) (rs : List Row) (hi hi' : ℤ) (r : Row)
    → Climbs lo rs hi
    → hi <ℤ r.seq
    → r.seq ≤ℤ hi'
    → Climbs lo (rs ++ r ∷ []) hi'
Climbs-append lo [] hi hi' r c h k = (omega arith, k)
Climbs-append lo (x ∷ xs) hi hi' r c h k = (c.0, Climbs-append x.seq xs hi hi' r c.1 h k)

pub Ordered-append :
    (rs : List Row) (hi hi' : ℤ) (r : Row)
    → Ordered rs hi
    → hi <ℤ r.seq
    → r.seq ≤ℤ hi'
    → Ordered (rs ++ r ∷ []) hi'
Ordered-append [] hi hi' r c h k = k
Ordered-append (x ∷ xs) hi hi' r c h k = Climbs-append x.seq xs hi hi' r c h k

pub Ordered-raise : (rs : List Row) (hi hi' : ℤ) → hi ≤ℤ hi' → Ordered rs hi → Ordered rs hi'
Ordered-raise [] hi hi' h c = tt
Ordered-raise (r ∷ rs) hi hi' h c = Climbs-raise r.seq rs hi hi' h c

pub Ordered-of_Climbs : (lo : ℤ) (rs : List Row) (hi : ℤ) → Climbs lo rs hi → Ordered rs hi
Ordered-of_Climbs lo [] hi c = tt
Ordered-of_Climbs lo (r ∷ rs) hi c = c.1

pub Ordered-drop : (n : ℕ) (rs : List Row) (hi : ℤ) → Ordered rs hi → Ordered (drop n rs) hi
Ordered-drop zero rs hi c = c
Ordered-drop (suc n) [] hi c = tt
Ordered-drop (suc n) (r ∷ rs) hi c = Ordered-drop n rs hi (Ordered-of_Climbs r.seq rs hi c)

pub length-last_rows : (limit : ℕ) (rs : List Row) → length (last_rows limit rs) ≤ limit
length-last_rows limit rs = omega (arith, length-drop (length rs - limit) rs)

module _ (codec : Codec) where
  entries-compact : (b : Bool) (j : Journal) → (compact codec b j).entries ≡ j.entries
  unfolding compact
  entries-compact b j = ground arith

  pub seq-compact : (b : Bool) (j : Journal) → (compact codec b j).seq ≡ j.seq
  unfolding compact
  seq-compact b j = ground arith

  limit-compact : (b : Bool) (j : Journal) → (compact codec b j).limit ≡ j.limit
  unfolding compact
  limit-compact b j = ground arith

  keep_entry-IsOrdered :
      (b : Bool) (r : Row) (j : Journal) (n : ℕ)
      → Ordered j.entries (pos n)
      → r.seq ≡ pos (n + 1)
      → j.seq ≡ n + 1
      → IsOrdered (keep_entry codec b r j)
  unfolding keep_entry
  keep_entry-IsOrdered b r j n h e f = record {
    ordered =
        rw (entries-compact b, seq-compact b, f)
          (Ordered-drop (length (j.entries ++ r ∷ []) - j.limit) (j.entries ++ r ∷ []) _ (
            Ordered-append j.entries (pos n) (pos (n + 1)) r h (rw e (omega arith))
              (rw e (omega arith))));
    short =
        rw (entries-compact b, limit-compact b) (length-last_rows j.limit (j.entries ++ r ∷ []));
  }

  written-IsOrdered :
      (io : Append) (b : Bool) (r : Row) (j : Journal) (n : ℕ)
      → Ordered j.entries (pos n)
      → length j.entries ≤ j.limit
      → r.seq ≡ pos (n + 1)
      → j.seq ≡ n + 1
      → IsOrdered (written codec io b r j (append_row codec io r j)).0
  unfolding written append_row
  written-IsOrdered done b r j n h s e f = keep_entry-IsOrdered b r _ n h e f
  written-IsOrdered _ b r j n h s e f = record {
    ordered = Ordered-raise j.entries (pos n) _ (rw f (omega arith)) h;
    short = s;
  }

  -- `record` keeps the numbers of the rows in memory growing, each at most the sequence, and the
  -- rows within the limit, whatever the disk answers.
  pub record_row-IsOrdered :
      (io : Append) (replaced : Bool) (now : String) (d : Deed) (j : Journal)
      → IsOrdered j
      → IsOrdered (record_row codec io replaced now d j).0
  unfolding record_row
  record_row-IsOrdered io replaced now d j h = elim (Bool-cases (is_blank d)) [
    | inl e ↦ rw e h
    | inr e ↦ rw e (
        written-IsOrdered io replaced
          (record { seq = pos (j.seq + 1); dict = entry_of d (j.seq + 1) now })
          (record j { seq = j.seq + 1 }) j.seq h.ordered h.short refl refl)
  ]
