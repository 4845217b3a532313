-- ===== src/Admin/Stream.antt =====
-- The stream of snapshot events (snapshotStream in credential/admin/server.go): its select loop over
-- the events in the order in which it receives them. `wrote` says whether the client took what was
-- written; json.Marshal is an argument.
use daigate.Prelude.{
  Text, ℕ, List, [], ◌∷◌, ◌++◌, codes, all, ◌==◌, ==_iff, if◌then◌else◌, Bool, true, false, Option,
  none, some, ◌≡◌, ◌≢◌, refl, arith, Bool-cases, inl, inr,
}
use daigate.Credential.Store.{SnapshotMeta}

-- What the select receives: the end of the request, a keepalive tick, or a tick of the poll with
-- what the store's SnapshotMeta gives, `none` being its error.
pub data Event : Type 0 where
  ended : Event
  keepalive : Bool → Event
  poll : Option SnapshotMeta → Bool → Event

-- What is written and flushed.
pub data Frame : Type 0 where
  keepalive_frame : Frame
  snapshot_frame : SnapshotMeta → Frame

unfoldable pub frame_text : (SnapshotMeta → Text) → Frame → Text
frame_text marshal keepalive_frame = codes ": keepalive\n\n"
frame_text marshal (snapshot_frame m) =
    codes "event: snapshot\ndata: " ++ (marshal m ++ codes "\n\n")

-- The loop, where `last_gen` was the last generation written.
unfoldable pub stream_loop : ℕ → List Event → List Frame
stream_loop last_gen [] = []
stream_loop last_gen (ended ∷ events) = []
stream_loop last_gen (keepalive wrote ∷ events) =
    let rest = stream_loop last_gen events in if wrote then keepalive_frame ∷ rest else []
stream_loop last_gen (poll none wrote ∷ events) = []
stream_loop last_gen (poll (some m) wrote ∷ events) =
    let same = stream_loop last_gen events in
    let moved = stream_loop m.generation events in
    if m.generation == last_gen then same else if wrote then snapshot_frame m ∷ moved else []

-- From the first event, which carries the meta that the handler starts with.
unfoldable pub stream_from : SnapshotMeta → Bool → List Event → List Frame
unfolding stream_loop
stream_from m wrote events =
    let rest = stream_loop m.generation events in if wrote then snapshot_frame m ∷ rest else []

-- The generation that a client knows after the frames.
unfoldable pub known_generation : ℕ → List Frame → ℕ
known_generation g [] = g
known_generation g (keepalive_frame ∷ frames) = known_generation g frames
known_generation g (snapshot_frame m ∷ frames) = known_generation m.generation frames

-- The generation that the last poll found.
unfoldable pub polled_generation : ℕ → List Event → ℕ
polled_generation g [] = g
polled_generation g (poll (some m) wrote ∷ events) = polled_generation m.generation events
polled_generation g (e ∷ events) = polled_generation g events

-- Events of a stream that goes on: no end, no error of the store and no failed write.
abbrev pub goes_on : Event → Bool
goes_on ended = false
goes_on (keepalive wrote) = wrote
goes_on (poll none wrote) = false
goes_on (poll (some m) wrote) = wrote

-- Each snapshot frame has another generation than the one before it.
abbrev pub AreChanges : ℕ → List Frame → Type 0
AreChanges g [] = Unit
AreChanges g (keepalive_frame ∷ frames) = AreChanges g frames
AreChanges g (snapshot_frame m ∷ frames) = (m.generation ≢ g) × AreChanges m.generation frames

stream_loop-AreChanges : (g : ℕ) (events : List Event) → AreChanges g (stream_loop g events)
unfolding stream_loop
stream_loop-AreChanges g [] = tt
stream_loop-AreChanges g (ended ∷ events) = tt
stream_loop-AreChanges g (keepalive true ∷ events) = stream_loop-AreChanges g events
stream_loop-AreChanges g (keepalive false ∷ events) = tt
stream_loop-AreChanges g (poll none wrote ∷ events) = tt
stream_loop-AreChanges g (poll (some m) wrote ∷ events) = elim (Bool-cases (m.generation == g)) [
  | inl same ↦ rw (stream_loop, same) (stream_loop-AreChanges g events)
  | inr moved ↦ elim (Bool-cases wrote) [
    | inl fine ↦
        rw (stream_loop, moved, fine)
          ((λ e. ground (arith, e, moved)), stream_loop-AreChanges m.generation events)
    | inr failed ↦ rw (stream_loop, moved, failed) tt
  ]
]

known_generation-stream_loop :
    (g : ℕ) (events : List Event)
    → all goes_on events ≡ true
    → known_generation g (stream_loop g events) ≡ polled_generation g events
unfolding stream_loop known_generation polled_generation
known_generation-stream_loop g [] h = refl
known_generation-stream_loop g (ended ∷ events) h = cc
known_generation-stream_loop g (keepalive true ∷ events) h = known_generation-stream_loop g events h
known_generation-stream_loop g (keepalive false ∷ events) h = cc
known_generation-stream_loop g (poll none wrote ∷ events) h = cc
known_generation-stream_loop g (poll (some m) false ∷ events) h = cc
known_generation-stream_loop g (poll (some m) true ∷ events) h =
    elim (Bool-cases (m.generation == g)) [
      | inl same ↦
          let e = (==_iff m.generation g).0 same in
          rw (stream_loop, same, e) (known_generation-stream_loop g events h)
      | inr moved ↦ rw (stream_loop, moved) (known_generation-stream_loop m.generation events h)
    ]

-- A client of the stream is told of every change and of nothing else: while the stream goes on, the
-- generation it was told last is the one that the last poll found, and no two snapshot events in a
-- row have the same generation.
pub stream_from-AreChanges :
    (m : SnapshotMeta) (events : List Event)
    → all goes_on events ≡ true
    → (frames : List Frame) × (stream_from m true events ≡ snapshot_frame m ∷ frames)
      × AreChanges m.generation frames
      × (known_generation m.generation frames ≡ polled_generation m.generation events)
unfolding stream_from
stream_from-AreChanges m events h = (
  stream_loop m.generation events,
  refl,
  stream_loop-AreChanges m.generation events,
  known_generation-stream_loop m.generation events h,
)
