-- ===== src/Canvas.antt =====
-- Moving elements on the builder's canvas, libs/seatmap-ui/src/SeatMapCanvas.tsx: drag, undo and redo. The page
-- around the canvas keeps the positions, and puts, without failing, an element where `onElementDragEnd` says. A coordinate is any
-- number, and `snap` the rounding of one to the grid.
pub mod Rewind
use ceylon_events.Common.{ℕ, Bool, true, false, ◌&&◌, ◌==◌, if◌then◌else◌, List, [], ◌∷◌}

pub data Kind : Type 0 where
  section table seat : Kind

abbrev pub same_kind : Kind → Kind → Bool
same_kind section k = elim k [ section ↦ true | _ ↦ false ]
same_kind table k = elim k [ table ↦ true | _ ↦ false ]
same_kind seat k = elim k [ seat ↦ true | _ ↦ false ]

module _ (Number : Type 0) where
  pub record Position : Type 0 where
    pub x : Number
    pub y : Number

  pub record Move : Type 0 where
    pub kind : Kind
    pub id : ℕ
    pub from : Position
    pub to : Position

  abbrev pub Positions : Type 0
  Positions = Kind → ℕ → Position

  -- The newest move of each stack stands first.
  pub record State : Type 0 where
    pub positions : Positions
    pub history : List Move
    pub redo_stack : List Move

module _ {Number : Type 0} where
  -- The page, told of the end of a drag.
  unfoldable pub element_drag_end : Kind → ℕ → Position Number → Positions Number → Positions Number
  element_drag_end kind id to p k i = if same_kind kind k && id == i then to else p k i

  unfoldable pub record_move : Move Number → State Number → State Number
  record_move m s = record s { history = m ∷ s.history; redo_stack = [] }

  unfoldable pub handle_drag_end :
      (Number → Number) → Kind → ℕ → Position Number → Number → Number → State Number → State Number
  unfolding record_move element_drag_end
  handle_drag_end snap kind id from raw_x raw_y s =
      let to : Position Number = record { x = snap raw_x; y = snap raw_y } in
      let s' = record_move (record { kind = kind; id = id; from = from; to = to }) s in
      record s' { positions = element_drag_end kind id to s'.positions }

  unfoldable pub undo : State Number → State Number
  unfolding element_drag_end
  undo s = elim s.history [
    | [] ↦ s
    | last ∷ rest ↦ record {
      positions = element_drag_end last.kind last.id last.from s.positions;
      history = rest;
      redo_stack = last ∷ s.redo_stack;
    }
  ]

  unfoldable pub redo : State Number → State Number
  unfolding element_drag_end
  redo s = elim s.redo_stack [
    | [] ↦ s
    | last ∷ rest ↦ record {
      positions = element_drag_end last.kind last.id last.to s.positions;
      history = last ∷ s.history;
      redo_stack = rest;
    }
  ]
