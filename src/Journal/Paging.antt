-- ===== src/Journal/Paging.antt =====
-- `page`, and a client that follows its cursor: nothing is skipped, nothing comes twice.
use barhandler_manager.Prelude.{
  ℕ, zero, suc, ◌+◌, ◌-◌, ◌≤◌, ◌<◌, max, min, ◌≡◌, refl, ap, List, [], ◌∷◌, ◌++◌, arith, length,
  take, length-append, length-take, inl, inr, Bool-cases, sym,
}
use barhandler_manager.Prelude.Int.{ℤ, pos, negsuc, pos_part, ◌≤ℤ◌, ◌<ℤ◌, ltb_ℤ}
use barhandler_manager.Journal.Rows.{Row, Journal, page, rows_after, last_seq_or}
use barhandler_manager.Journal.Order.{Climbs, Ordered, IsOrdered, Ordered-of_Climbs, Ordered-raise}

rows_after_all :
    (a lo : ℤ) (rs : List Row) (hi : ℤ) → a ≤ℤ lo → Climbs lo rs hi → rows_after a rs ≡ rs
unfolding rows_after
rows_after_all a lo [] hi h c = refl
rows_after_all a lo (r ∷ rs) hi h c =
    ground (arith, rows_after_all a r.seq rs hi (omega (arith, c.0)) c.1)

last_seq_or-take :
    (lo : ℤ) (k : ℕ) (rs : List Row) (hi : ℤ) → Climbs lo rs hi → lo ≤ℤ last_seq_or lo (take k rs)
unfolding last_seq_or
last_seq_or-take lo zero rs hi c = omega arith
last_seq_or-take lo (suc k) [] hi c = omega arith
last_seq_or-take lo (suc k) (r ∷ rs) hi c = omega (arith, last_seq_or-take r.seq k rs hi c.1)

rows_after_skip :
    (z : ℤ) (r : Row) (rs : List Row) → r.seq ≤ℤ z → rows_after z (r ∷ rs) ≡ rows_after z rs
unfolding rows_after
rows_after_skip z r rs h = ground arith

rows_after_keep :
    (z : ℤ) (r : Row) (rs : List Row) → z <ℤ r.seq → rows_after z (r ∷ rs) ≡ r ∷ rows_after z rs
unfolding rows_after
rows_after_keep z r rs h = ground arith

-- What is taken off the front, and the rows after its last number, are all the rows.
split_climb :
    (lo : ℤ) (k : ℕ) (rs : List Row) (hi : ℤ)
    → Climbs lo rs hi
    → take k rs ++ rows_after (last_seq_or lo (take k rs)) rs ≡ rs
unfolding last_seq_or
split_climb lo zero rs hi c = rows_after_all lo lo rs hi (omega arith) c
split_climb lo (suc k) [] hi c = unfold rows_after in refl
split_climb lo (suc k) (r ∷ rs) hi c =
    rw (rows_after_skip (last_seq_or r.seq (take k rs)) r rs (last_seq_or-take r.seq k rs hi c.1))
      (ap (◌∷◌ r) (split_climb r.seq k rs hi c.1))

-- The rows after a number form the end of a growing list.
rows_after-Climbs :
    (a : ℤ) (rs : List Row) (hi : ℤ) → a ≤ℤ hi → Ordered rs hi → Climbs a (rows_after a rs) hi
rows_after-Climbs a [] hi h c = unfold rows_after in h
rows_after-Climbs a (r ∷ rs) hi h c = elim (Bool-cases (ltb_ℤ a r.seq)) [
  | inl p ↦
      rw (rows_after_keep a r rs (ground arith), rows_after_all a r.seq rs hi (ground arith) c)
        (ground arith, c)
  | inr p ↦
      rw (rows_after_skip a r rs (ground arith))
        (rows_after-Climbs a rs hi h (Ordered-of_Climbs r.seq rs hi c))
]

rows_after-again :
    (a b : ℤ) (rs : List Row) → a ≤ℤ b → rows_after b (rows_after a rs) ≡ rows_after b rs
unfolding rows_after
rows_after-again a b [] h = refl
rows_after-again a b (r ∷ rs) h = ground (arith, rows_after-again a b rs h)

page_split :
    (a : ℤ) (k : ℕ) (rs : List Row) (hi : ℤ)
    → Ordered rs hi
    → a ≤ℤ hi
    → let rows = take k (rows_after a rs) in
      rows ++ rows_after (last_seq_or a rows) rs ≡ rows_after a rs
page_split a k rs hi c h =
    let climbs = rows_after-Climbs a rs hi h c in
    rw
      (rows_after-again a (last_seq_or a (take k (rows_after a rs))) rs
        (last_seq_or-take a k (rows_after a rs) hi climbs))
      at (split_climb a k (rows_after a rs) hi climbs)

-- The number of rows that `page` takes.
abbrev page_size : ℤ → ℕ
page_size limit = max 1 (min (pos_part limit) 2000)

-- A page and the rows after its `pageLastSeq` are the rows after the number that was asked for: a
-- client that asks from `pageLastSeq` next skips nothing and gets nothing twice. The page holds at
-- most as many rows as were asked for, and the rows that the journal holds do not change.
pub page_complete :
    (after limit : ℤ) (j : Journal)
    → IsOrdered j
    → (let (j', p) = page after limit j in
        (p.rows ++ rows_after p.page_last_seq j'.entries
          ≡ rows_after (pos (pos_part after)) j.entries)
        × (length p.rows ≤ page_size limit)
        × (j'.entries ≡ j.entries))
unfolding page
page_complete after limit j h = (
  page_split (pos (pos_part after)) (page_size limit) j.entries (pos (j.seq + pos_part after))
      (Ordered-raise j.entries (pos j.seq) _ (omega arith) h.ordered) (omega arith),
  omega (arith, length-take (page_size limit) (rows_after (pos (pos_part after)) j.entries)),
  refl,
)

-- `page` keeps the rows ordered and below the sequence.
pub page-IsOrdered :
    (after limit : ℤ) (j : Journal) → IsOrdered j → IsOrdered (page after limit j).0
unfolding page
page-IsOrdered after limit j h = record {
  ordered = Ordered-raise j.entries (pos j.seq) _ (ground arith) h.ordered;
  short = h.short;
}

-- The online app's loop: it asks from `pageLastSeq` until a page is empty.
pub drain : ℕ → ℤ → ℤ → Journal → List Row
drain zero after limit j = []
drain (suc f) after limit j =
    let (j', p) = page after limit j in
    let rest = p.rows ++ drain f p.page_last_seq limit j' in elim p.rows [ [] ↦ [] | _ ∷ _ ↦ rest ]

pos-pos_part : (z : ℤ) → pos 0 ≤ℤ z → pos (pos_part z) ≡ z
pos-pos_part (pos n) h = refl
pos-pos_part (negsuc n) h = absurd (omega arith)

take_empty : (n : ℕ) (rs : List Row) → take (max 1 n) rs ≡ [] → rs ≡ []
take_empty n [] h = refl
take_empty n (r ∷ rs) h =
    let e : max 1 n ≡ suc (max 1 n - 1) = omega arith in
    let h' : take (suc (max 1 n - 1)) (r ∷ rs) ≡ [] = rw e at h in cc h'

module _ (after limit : ℤ) (j : Journal) (h : IsOrdered j) where
  page_last_seq_nonneg :
      pos (pos_part (page after limit j).1.page_last_seq) ≡ (page after limit j).1.page_last_seq
  unfolding page
  page_last_seq_nonneg = pos-pos_part _ (
      omega (
        arith,
        last_seq_or-take (pos (pos_part after)) (page_size limit)
            (rows_after (pos (pos_part after)) j.entries) (pos (j.seq + pos_part after))
            (rows_after-Climbs (pos (pos_part after)) j.entries (pos (j.seq + pos_part after))
              (omega arith) (Ordered-raise j.entries (pos j.seq) _ (omega arith) h.ordered)),
      ))

  page_empty : (page after limit j).1.rows ≡ [] → rows_after (pos (pos_part after)) j.entries ≡ []
  unfolding page
  page_empty e = take_empty _ _ e

  -- A page with a row in it: the loop goes on from its cursor.
  rows_after_cursor :
      (r : Row) (rows : List Row)
      → (page after limit j).1.rows ≡ r ∷ rows
      → let z = (page after limit j).1.page_last_seq in
        (r ∷ rows ++ rows_after z j.entries ≡ rows_after (pos (pos_part after)) j.entries)
        × (rows_after (pos (pos_part z)) (page after limit j).0.entries ≡ rows_after z j.entries)
  rows_after_cursor r rows e =
      let (complete, _, same) = page_complete after limit j h in
      (rw (e, same) at complete, rw (page_last_seq_nonneg, same))

-- In a journal with no more rows than its limit, whose numbers grow from row to row and stay within
-- the last one handed out, a client that follows the cursor, page by page, gets every row after the
-- number it began with, once and in order, whatever the page size; one page more than there are such
-- rows is enough.
pub drain_all :
    (f : ℕ) (after limit : ℤ) (j : Journal)
    → IsOrdered j
    → length (rows_after (pos (pos_part after)) j.entries) < f
    → drain f after limit j ≡ rows_after (pos (pos_part after)) j.entries
unfolding drain
drain_all zero after limit j h lt = elim lt [ ]
drain_all (suc f) after limit j h lt = drained (page after limit j).1.rows refl (
    drain_all f (page after limit j).1.page_last_seq limit (page after limit j).0
      (page-IsOrdered after limit j h))
  where
    open page after limit j use {«1» as p, «0» as j'}

    drained :
        (rows : List Row)
        → p.rows ≡ rows
        → (length (rows_after (pos (pos_part p.page_last_seq)) j'.entries) < f
            → drain f p.page_last_seq limit j'
              ≡ rows_after (pos (pos_part p.page_last_seq)) j'.entries)
        → drain (suc f) after limit j ≡ rows_after (pos (pos_part after)) j.entries
    drained [] e ih = rw (e, drain) (sym (page_empty after limit j h e))
    drained (r ∷ rows) e ih =
        let (split, next) = rows_after_cursor after limit j h r rows e in
        let shorter : length (rows_after (pos (pos_part p.page_last_seq)) j'.entries) < f =
          rw next (
            omega (
              arith,
              ap length split,
              length-append rows (rows_after p.page_last_seq j.entries),
            )) in
        rw (e, drain) (rw (e, ih shorter, next) split)
