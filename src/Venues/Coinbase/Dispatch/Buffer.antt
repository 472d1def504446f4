-- ===== src/Venues/Coinbase/Dispatch/Buffer.antt =====
-- The rows that leave the buffer.
use slick_sim.Prelude.{
  ℕ, ◌≡◌, ◌≢◌, refl, ap, sym, ◌∙◌, false, List, [], ◌∷◌, ◌++◌, reverse, reverse-cons, append_assoc,
  append-nil, eqb, arith, Bool-cases, inl, inr,
}
use slick_sim.Common.MarketData.{MdLevel}
use slick_sim.Exchange.Session.{
  MarketDataUpdate, level, order, trade_summary, sub_response, book_response, book_snapshot,
  publish_frame,
}
use slick_sim.Venues.Coinbase.Dispatch.{Live, first_published, flush_rows, buffer_row}

-- The rows of the level frames of a queue, which lists its last frame first.
abbrev pub rows_of : MarketDataUpdate → List MdLevel
rows_of (level rows) = rows
rows_of (order os) = []
rows_of (trade_summary s) = []
rows_of (sub_response r) = []
rows_of (book_response channel b) = []
rows_of (book_snapshot b) = []

abbrev pub sent_rows : List MarketDataUpdate → List MdLevel
sent_rows [] = []
sent_rows (f ∷ fs) = sent_rows fs ++ rows_of f

module _ {B : Type 0} where
  -- Every row so far: those that were published, and those that wait.
  abbrev pub all_rows : Live B → List MdLevel
  all_rows v = sent_rows v.ex.md_queue ++ reverse v.state.level_update_buffer

  abbrev pub buffer_rows : List MdLevel → Live B → Live B
  buffer_rows [] v = v
  buffer_rows (row ∷ rows) v = buffer_rows rows (buffer_row row v)

  flush_rows-all :
      (seq_num : ℕ) (v : Live B)
      → all_rows (flush_rows seq_num v.state.level_update_buffer v) ≡ all_rows v
  unfolding flush_rows publish_frame
  flush_rows-all seq_num v = at v.state.level_update_buffer refl
    where
      at :
          (rows : List MdLevel)
          → v.state.level_update_buffer ≡ rows
          → all_rows (flush_rows seq_num rows v) ≡ sent_rows v.ex.md_queue ++ reverse rows
      at [] e = ap (λ rows. sent_rows v.ex.md_queue ++ reverse rows) e
      at (l ∷ ls) e = elim (Bool-cases (eqb seq_num v.state.last_published_level_seq_num)) [
        | inl same ↦ rw same (ap (λ rows. sent_rows v.ex.md_queue ++ reverse rows) e)
        | inr other ↦ rw other (append-nil (sent_rows v.ex.md_queue ++ reverse (l ∷ ls)))
      ]

  buffer_row-all :
      (row : MdLevel) (v : Live B) → all_rows (buffer_row row v) ≡ all_rows v ++ (row ∷ [])
  unfolding buffer_row first_published
  buffer_row-all row v =
      let started : Live B = record v { state = first_published row.seq_num v.state } in
      let flushed = flush_rows row.seq_num started.state.level_update_buffer started in
      ap (λ rows. sent_rows flushed.ex.md_queue ++ rows)
        (reverse-cons row flushed.state.level_update_buffer)
      ∙ (sym (
            append_assoc (sent_rows flushed.ex.md_queue) (reverse flushed.state.level_update_buffer)
              (row ∷ []))
          ∙ ap (λ rows. rows ++ (row ∷ [])) (flush_rows-all row.seq_num started))

  -- However many rows come, those published and those in the buffer are the rows that came, each once
  -- and in their order.
  pub buffer_rows-all :
      (rows : List MdLevel) (v : Live B) → all_rows (buffer_rows rows v) ≡ all_rows v ++ rows
  buffer_rows-all [] v = sym (append-nil (all_rows v))
  buffer_rows-all (row ∷ rows) v =
      buffer_rows-all rows (buffer_row row v)
      ∙ (ap (λ rs. rs ++ rows) (buffer_row-all row v) ∙ append_assoc (all_rows v) (row ∷ []) rows)

  -- What a change of sequence in a buffer of rows of one sequence does: the rows of the last sequence
  -- are published in one frame, and then the first row of the new one in a frame of its own, once the
  -- second row comes.
  pub buffer_rows-splits :
      (l a b : MdLevel) (ls : List MdLevel) (v : Live B)
      → v.state.level_update_buffer ≡ l ∷ ls
      → v.state.last_published_level_seq_num ≡ l.seq_num
      → b.seq_num ≡ a.seq_num
      → l.seq_num ≢ a.seq_num
      → l.seq_num ≢ 0
      → let after = buffer_rows (a ∷ b ∷ []) v in
        (after.ex.md_queue ≡ level (a ∷ []) ∷ level (reverse (l ∷ ls)) ∷ v.ex.md_queue)
        × (after.state.level_update_buffer ≡ b ∷ [])
  unfolding buffer_row first_published flush_rows publish_frame
  buffer_rows-splits l a b ls v buffered last same other set =
      let unset : eqb l.seq_num 0 ≡ false = ground arith in
      let changed : eqb a.seq_num l.seq_num ≡ false = ground arith in
      simp (buffered, last, same, unset, changed) (refl, refl)
