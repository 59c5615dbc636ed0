-- ===== src/Canvas/Rewind.antt =====
-- Undo and redo over any history of drags.
use ceylon_events.Common.{
  ℕ, ◌≡◌, refl, ◌∙◌, sym, ap, subst, zero, suc, true, ◌&&◌, ◌==◌, ==_refl, ==_iff, List, [], ◌∷◌,
  length, arith, inl, inr, Bool-cases,
}
use ceylon_events.Canvas.{
  Kind, section, table, seat, same_kind, Position, Move, Positions, State, element_drag_end,
  record_move, handle_drag_end, undo, redo,
}

-- A drag starts where the element is.
pub data Command (Number : Type 0) : Type 0 where
  drags : Kind → ℕ → Number → Number → Command Number
  undoes redoes : Command Number

same_kind-eq : (a b : Kind) → same_kind a b ≡ true → a ≡ b
same_kind-eq section section h = refl
same_kind-eq section table h = cc
same_kind-eq section seat h = cc
same_kind-eq table section h = cc
same_kind-eq table table h = refl
same_kind-eq table seat h = cc
same_kind-eq seat section h = cc
same_kind-eq seat table h = cc
same_kind-eq seat seat h = refl

same_kind_refl : (a : Kind) → same_kind a a ≡ true
same_kind_refl section = refl
same_kind_refl table = refl
same_kind_refl seat = refl

module _ {Number : Type 0} where
  -- An element that is put where it was stays.
  element_drag_end-back :
      (kind : Kind) (id : ℕ) (a b : Position Number) (p : Positions Number)
      → p kind id ≡ b
      → element_drag_end kind id b (element_drag_end kind id a p) ≡ p
  unfolding element_drag_end
  element_drag_end-back kind id a b p at = λ i k n. go k n i
    where
      go :
          (k : Kind) (n : ℕ) → element_drag_end kind id b (element_drag_end kind id a p) k n ≡ p k n
      go k n = elim (Bool-cases (same_kind kind k && id == n)) [
        | inr other ↦ ground arith
        | inl own ↦
            let kind_is = same_kind-eq kind k (ground arith) in
            let id_is : id ≡ n = ground (arith, ==_iff id n) in
            ground (arith, sym at ∙ ap (λ z. p z id) kind_is ∙ ap (p k) id_is)
      ]

  element_drag_end-at :
      (kind : Kind) (id : ℕ) (a : Position Number) (p : Positions Number)
      → element_drag_end kind id a p kind id ≡ a
  unfolding element_drag_end
  element_drag_end-at kind id a p = ground (arith, same_kind_refl kind, ==_refl id)

  -- Each move of the history led to where its element is, once the newer ones are undone.
  AreDone : List (Move Number) → Positions Number → Type 0
  AreDone [] p = Unit
  AreDone (m ∷ ms) p = (p m.kind m.id ≡ m.to) × AreDone ms (element_drag_end m.kind m.id m.from p)

  -- Each move of the redo stack starts where its element is, once the newer ones are done again.
  AreUndone : List (Move Number) → Positions Number → Type 0
  AreUndone [] p = Unit
  AreUndone (m ∷ ms) p =
      (p m.kind m.id ≡ m.from) × AreUndone ms (element_drag_end m.kind m.id m.to p)

  unfoldable pub IsConsistent : State Number → Type 0
  unfolding AreDone AreUndone
  IsConsistent s = AreDone s.history s.positions × AreUndone s.redo_stack s.positions

  -- The positions after everything is undone.
  rewound : List (Move Number) → Positions Number → Positions Number
  rewound [] p = p
  rewound (m ∷ ms) p = rewound ms (element_drag_end m.kind m.id m.from p)

  rewind : State Number → Positions Number
  unfolding rewound
  rewind s = rewound s.history s.positions

  unfoldable pub undo_times : ℕ → State Number → State Number
  undo_times zero s = s
  undo_times (suc n) s = undo_times n (undo s)

  undo_times-rewound :
      (p : Positions Number) (h r : List (Move Number))
      → (undo_times (length h) (record { positions = p; history = h; redo_stack = r })).positions
        ≡ rewound h p
  unfolding undo_times undo rewound
  undo_times-rewound p [] r = refl
  undo_times-rewound p (m ∷ ms) r =
      undo_times-rewound (element_drag_end m.kind m.id m.from p) ms (m ∷ r)

  undo_times-rewind : (s : State Number) → (undo_times (length s.history) s).positions ≡ rewind s
  unfolding rewind
  undo_times-rewind s = undo_times-rewound s.positions s.history s.redo_stack

  module _ (snap : Number → Number) where
    unfoldable pub serve : Command Number → State Number → State Number
    serve (drags kind id x y) s = handle_drag_end snap kind id (s.positions kind id) x y s
    serve undoes s = undo s
    serve redoes s = redo s

    unfoldable pub serve_all : List (Command Number) → State Number → State Number
    serve_all [] s = s
    serve_all (c ∷ cs) s = serve_all cs (serve c s)

    drag-rewind :
        (kind : Kind) (id : ℕ) (x y : Number) (s : State Number)
        → IsConsistent s
        → let s' = handle_drag_end snap kind id (s.positions kind id) x y s in
          IsConsistent s' × (rewind s' ≡ rewind s)
    unfolding IsConsistent rewind handle_drag_end record_move rewound AreDone AreUndone
    drag-rewind kind id x y s (done, undone) =
        let to : Position Number = record { x = snap x; y = snap y } in
        let back = element_drag_end-back kind id to (s.positions kind id) s.positions refl in
        (
          (
            (element_drag_end-at kind id to s.positions, subst (AreDone s.history) (sym back) done),
            tt,
          ),
          ap (rewound s.history) back,
        )

    undo-rewind :
        (p : Positions Number) (h r : List (Move Number))
        → let s : State Number = record { positions = p; history = h; redo_stack = r } in
          IsConsistent s → IsConsistent (undo s) × (rewind (undo s) ≡ rewind s)
    unfolding IsConsistent rewind undo rewound AreDone AreUndone
    undo-rewind p [] r h = (h, refl)
    undo-rewind p (m ∷ ms) r ((at, done), undone) =
        let back = element_drag_end-back m.kind m.id m.from m.to p at in
        (
          (done, (element_drag_end-at m.kind m.id m.from p, subst (AreUndone r) (sym back) undone)),
          refl,
        )

    redo-rewind :
        (p : Positions Number) (h r : List (Move Number))
        → let s : State Number = record { positions = p; history = h; redo_stack = r } in
          IsConsistent s → IsConsistent (redo s) × (rewind (redo s) ≡ rewind s)
    unfolding IsConsistent rewind redo rewound AreDone AreUndone
    redo-rewind p h [] c = (c, refl)
    redo-rewind p h (m ∷ ms) (done, (at, undone)) =
        let back = element_drag_end-back m.kind m.id m.to m.from p at in
        (
          ((element_drag_end-at m.kind m.id m.to p, subst (AreDone h) (sym back) done), undone),
          ap (rewound h) back,
        )

    serve-rewind :
        (c : Command Number) (s : State Number)
        → IsConsistent s
        → IsConsistent (serve c s) × (rewind (serve c s) ≡ rewind s)
    unfolding serve
    serve-rewind (drags kind id x y) s h = drag-rewind kind id x y s h
    serve-rewind undoes s h = undo-rewind s.positions s.history s.redo_stack h
    serve-rewind redoes s h = redo-rewind s.positions s.history s.redo_stack h

    serve_all-rewind :
        (cs : List (Command Number)) (s : State Number)
        → IsConsistent s
        → IsConsistent (serve_all cs s) × (rewind (serve_all cs s) ≡ rewind s)
    unfolding serve_all
    serve_all-rewind [] s h = (h, refl)
    serve_all-rewind (c ∷ cs) s h =
        let (h', same) = serve-rewind c s h in
        let (h'', same') = serve_all-rewind cs (serve c s) h' in (h'', same' ∙ same)

    -- However elements are dragged, and moves undone and done again, undoing all that is left leads
    -- back to where undoing all led at first; and the two stacks stay consistent with the positions.
    pub undo_times-serve_all :
        (cs : List (Command Number)) (s : State Number)
        → IsConsistent s
        → let s' = serve_all cs s in
          IsConsistent s'
          × ((undo_times (length s'.history) s').positions
              ≡ (undo_times (length s.history) s).positions)
    undo_times-serve_all cs s h =
        let (h', same) = serve_all-rewind cs s h in
        (h', undo_times-rewind (serve_all cs s) ∙ same ∙ sym (undo_times-rewind s))
