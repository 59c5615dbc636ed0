-- ===== src/Tests/Builder.antt =====
-- The builder's canvas with every element at the corner.
use ceylon_events.Common.{ℕ, ◌≡◌, refl, ◌+◌, ◌*◌, ◌/◌, [], ◌∷◌}
use ceylon_events.Canvas.{
  table, seat, Position, State, handle_drag_end, record_move, undo, redo, element_drag_end,
}
use ceylon_events.Canvas.Rewind.{
  drags, undoes, redoes, IsConsistent, serve, serve_all, undo_times, undo_times-serve_all,
}

abbrev snap : ℕ → ℕ
snap n = (n + 5) / 10 * 10

abbrev corner : Position ℕ
corner = record { x = 0; y = 0 }

abbrev undrawn : State ℕ
undrawn = record { positions = λ k i. corner; history = []; redo_stack = [] }

dragged-again :
    (serve_all snap
        (drags table 3 47 91 ∷ drags seat 3 8 2 ∷ undoes ∷ undoes ∷ redoes ∷ [])
        undrawn).positions
      table 3
    ≡ record { x = 50; y = 90 }
unfolding serve_all serve handle_drag_end record_move undo redo element_drag_end
dragged-again = refl

undo_times-serve_all_example :
    (undo_times 1 (serve_all snap (drags table 3 47 91 ∷ undoes ∷ redoes ∷ []) undrawn)).positions
    ≡ undrawn.positions
unfolding IsConsistent serve_all serve handle_drag_end record_move undo redo undo_times
undo_times-serve_all_example =
    (undo_times-serve_all snap (drags table 3 47 91 ∷ undoes ∷ redoes ∷ []) undrawn (tt, tt)).1
