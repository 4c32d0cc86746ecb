-- ===== src/Tests/Pages.antt =====
-- Paging, and transactions, on the sample.
use agent_state.Common.{◌+◌, ℕ, ◌≡◌, refl, none, some, [], ◌∷◌, arith}
use agent_state.Common.Int.{pos, ◌≤ℤ◌}
use agent_state.Errors.{Result, ok, err, sentinel, duplicate_message, ◌>>=◌}
use agent_state.Message.{Time}
use agent_state.Database.Monad.{Db, run_tx, tick}
use agent_state.Database.Atomic.{AllOrNothing, run_tx_atomic}
use agent_state.Database.Statements.{Counts, select_counts, select_order, delete_messages}
use agent_state.Page.{normalize_page_size, scan_page}
use agent_state.Page.Scan.{normalize_page_size_range, scan_page_lem, decode_all, cursor_after}
use agent_state.Store.Cut.{Cut, cut}
use agent_state.Store.Cut.Splice.{Splices, cut-Splices}
use agent_state.Store.Walk.{walk_ids, walk_ids-cover}
use agent_state.Tests.Sample.{quiet, tables, world}

abbrev counts : Counts
counts = record { message_count = 3; updated_at = 5; version = 4 }

walk_ids-cover_example :
    (walk_ids quiet (λ n. refl) 7 (pos 2) 4 none world).0 ≡ ok (select_order 7 tables)
unfolding select_counts
walk_ids-cover_example =
    walk_ids-cover quiet (λ n. refl) 7 (pos 2) counts world 4 refl (omega arith) (omega arith)

normalize_page_size_range_example :
    (pos 1 ≤ℤ normalize_page_size (pos 700))
    × (normalize_page_size (pos 700) ≤ℤ pos 100)
    × (pos 1 ≤ℤ pos 700 → pos 700 ≤ℤ pos 100 → normalize_page_size (pos 700) ≡ pos 700)
normalize_page_size_range_example = normalize_page_size_range (pos 700)

abbrev even_only : ℕ → Result ℕ
even_only n = ok (n + n)

scan_page_lem_example : scan_page even_only (λ n. n) 2 (4 ∷ 5 ∷ 6 ∷ []) ≡ (
    decode_all even_only (4 ∷ 5 ∷ []) >>= λ found.
    ok (record { entries = found; next_cursor = cursor_after (λ n. n) 0 2 (4 ∷ 5 ∷ 6 ∷ []) }))
scan_page_lem_example = scan_page_lem even_only (λ n. n) 2 (4 ∷ 5 ∷ 6 ∷ [])

-- A body that deletes two messages, the items with them, and then raises.
abbrev failing : Time → Db ℕ
failing now w = (
  err (sentinel duplicate_message),
  record w { tables = delete_messages 7 (11 ∷ 12 ∷ []) w.tables },
)

failing-writes : select_order 7 (failing 1000 (tick world)).1.tables ≡ 13 ∷ []
unfolding select_order delete_messages
failing-writes = refl

run_tx_atomic_example : AllOrNothing tables (failing 1000 (tick world)) (run_tx quiet failing world)
run_tx_atomic_example = run_tx_atomic quiet failing world

rolled_back_order : select_order 7 (run_tx quiet failing world).1.tables ≡ 11 ∷ 12 ∷ 13 ∷ []
unfolding select_order run_tx
rolled_back_order = refl

abbrev middle : Cut
middle = record { working = 11 ∷ 14 ∷ []; replaced = 12 ∷ 13 ∷ []; insert_pos = 1 }

cut-Splices_example : Splices (some 12) (some 13) (11 ∷ 12 ∷ 13 ∷ 14 ∷ []) middle
unfolding cut
cut-Splices_example = cut-Splices (some 12) (some 13) [] (11 ∷ 12 ∷ 13 ∷ 14 ∷ []) refl
