-- ===== src/GameAdapter/Ring.antt =====
-- internal/gameadapter/udp.go: the counters and the ring of frames after any packets.
use logi_mate.Base.{
  ℕ, zero, suc, ◌+◌, ◌-◌, ◌≤◌, ◌≡◌, ◌∙◌, refl, Bool, true, false, List, [], ◌∷◌, ◌++◌, length, drop,
  length-append, length-drop, arith, Bool-cases, inl, inr, ltb,
}
use mathlib.Core.List.{append-nil, append_assoc}
use logi_mate.Base.Int.{ℤ}
use logi_mate.Base.Text.{Text}
use logi_mate.Base.Results.{Result, ok, err}
use logi_mate.GameAdapter.{
  AdapterDescriptor, TelemetryFrame, UdpAdapter, push, stamped, start_adapter, take_in, receive,
  ring_size,
}

-- The last so many items of a list.
abbrev pub last_items {ℓ} : {Item : Type ℓ} → ℕ → List Item → List Item
last_items n items = drop (length items - n) items

drop-append :
    (n : ℕ) (xs ys : List TelemetryFrame) → n ≤ length xs → drop n xs ++ ys ≡ drop n (xs ++ ys)
drop-append zero xs ys h = refl
drop-append (suc n) [] ys h = absurd (omega arith)
drop-append (suc n) (x ∷ xs) ys h = drop-append n xs ys (omega arith)

drop_nil : (n : ℕ) → drop {A = TelemetryFrame} n [] ≡ []
drop_nil zero = refl
drop_nil (suc n) = refl

drop-drop : (n m k : ℕ) (xs : List TelemetryFrame) → n + m ≡ k → drop m (drop n xs) ≡ drop k xs
drop-drop zero m k xs h = let e : m ≡ k = omega (arith, h) in rw e refl
drop-drop (suc n) m k [] h = rw (drop_nil m, drop_nil k) refl
drop-drop (suc n) m zero (x ∷ xs) h = absurd (omega (arith, h))
drop-drop (suc n) m (suc k) (x ∷ xs) h = drop-drop n m k xs (omega (arith, h))

-- Both branches of the cut are one.
push-drop :
    (ring : List TelemetryFrame) (f : TelemetryFrame)
    → push ring f ≡ last_items ring_size (ring ++ f ∷ [])
unfolding push
push-drop ring f = elim (Bool-cases (ltb ring_size (length (ring ++ f ∷ [])))) [
  | inl e ↦ rw e refl
  | inr e ↦
      let none_over : length (ring ++ f ∷ []) - ring_size ≡ 0 = ground arith in
      rw (e, none_over) refl
]

push-last_items :
    (xs : List TelemetryFrame) (f : TelemetryFrame)
    → push (last_items ring_size xs) f ≡ last_items ring_size (xs ++ f ∷ [])
push-last_items xs f =
    let m = length xs - ring_size in
    let longer = xs ++ f ∷ [] in
    let joined = drop-append m xs (f ∷ []) (omega arith) in
    push-drop (drop m xs) f
    ∙ rw joined (
        drop-drop m (length (drop m longer) - ring_size) (length longer - ring_size) longer
          (omega (arith, length-drop m longer, length-append xs (f ∷ []))))

-- One packet, as it arrives.
pub record Packet : Type 0 where
  pub bytes : List ℕ
  pub loopback : Bool
  pub at_time : ℕ

-- The frames that an adapter should take from the packets, as it stores them: those of the packets
-- that come from this machine and that the parser accepts.
abbrev taken_frame : AdapterDescriptor → Bool → Result Text TelemetryFrame → ℕ → List TelemetryFrame
taken_frame d false r now = []
taken_frame d true (err e) now = []
taken_frame d true (ok f) now = stamped d f now ∷ []

-- The ring and the counters of an adapter, from the frames that it took in and the number of packets.
pub record Follows (d : AdapterDescriptor) (a : UdpAdapter) (log : List TelemetryFrame)
    (packets : ℕ) : Type 0 where
  pub desc_is : a.desc ≡ d
  pub ring_is : a.ring ≡ last_items ring_size log
  pub frames_are : a.health.frames ≡ length log
  pub packets_are : a.health.packets ≡ packets
  pub rest_invalid : a.health.frames + a.health.invalid ≡ packets

-- A packet is counted before it is read.
counted : UdpAdapter → UdpAdapter
counted a = record a { health = record (a.health) { packets = suc a.health.packets } }

refused-Follows :
    (d : AdapterDescriptor) (a : UdpAdapter) (log : List TelemetryFrame) (packets : ℕ) (e : Text)
    → Follows d a log packets
    → Follows d
        (record a {
          health = record (a.health) {
            packets = suc a.health.packets;
            invalid = suc a.health.invalid;
            last_error = e;
          };
        })
        (log ++ [])
        (suc packets)
refused-Follows d a log packets e h = rw (append-nil log) (record {
  desc_is = h.desc_is;
  ring_is = h.ring_is;
  frames_are = h.frames_are;
  packets_are = omega (arith, h.packets_are);
  rest_invalid = omega (arith, h.rest_invalid);
})

module _ (parse : List ℕ → ℕ → Result Text TelemetryFrame) where
  pub receive_all : UdpAdapter → List Packet → UdpAdapter
  receive_all a [] = a
  receive_all a (p ∷ ps) = receive_all (receive parse a p.bytes p.loopback p.at_time) ps

module _ (parse : List ℕ → ℕ → Result Text TelemetryFrame) (d : AdapterDescriptor) where
  take_in-Follows :
      (a : UdpAdapter) (log : List TelemetryFrame) (packets : ℕ) (r : Result Text TelemetryFrame)
      (now : ℕ)
      → Follows d a log packets
      → Follows d (take_in (counted a) r now) (log ++ taken_frame d true r now) (suc packets)
  unfolding take_in counted
  take_in-Follows a log packets (err e) now h = refused-Follows d a log packets e h
  take_in-Follows a log packets (ok f) now h = record {
    desc_is = h.desc_is;
    ring_is = rw (h.desc_is, h.ring_is) (push-last_items log (stamped d f now));
    frames_are = omega (arith, h.frames_are, length-append log (stamped d f now ∷ []));
    packets_are = omega (arith, h.packets_are);
    rest_invalid = omega (arith, h.rest_invalid);
  }

  receive-Follows :
      (a : UdpAdapter) (log : List TelemetryFrame) (packets : ℕ) (p : Packet)
      → Follows d a log packets
      → Follows d
          (receive parse a p.bytes p.loopback p.at_time)
          (log ++ taken_frame d p.loopback (parse p.bytes p.at_time) p.at_time)
          (suc packets)
  unfolding receive counted
  receive-Follows a log packets p h = elim (Bool-cases p.loopback) [
    | inl e ↦ simp e (take_in-Follows a log packets (parse p.bytes p.at_time) p.at_time h)
    | inr e ↦ simp e (refused-Follows d a log packets a.health.last_error h)
  ]

  pub taken : List Packet → List TelemetryFrame
  taken [] = []
  taken (p ∷ ps) = taken_frame d p.loopback (parse p.bytes p.at_time) p.at_time ++ taken ps

  receive_all-Follows_on :
      (a : UdpAdapter) (log : List TelemetryFrame) (packets : ℕ) (ps : List Packet)
      → Follows d a log packets
      → Follows d (receive_all parse a ps) (log ++ taken ps) (packets + length ps)
  unfolding receive_all taken
  receive_all-Follows_on a log packets [] h =
      let none_more : packets + 0 ≡ packets = omega arith in rw (append-nil log, none_more) h
  receive_all-Follows_on a log packets (p ∷ ps) h =
      let frames = taken_frame d p.loopback (parse p.bytes p.at_time) p.at_time in
      let rest =
        receive_all-Follows_on (receive parse a p.bytes p.loopback p.at_time) (log ++ frames)
          (suc packets) ps (receive-Follows a log packets p h) in
      let shift : packets + suc (length ps) ≡ suc packets + length ps = omega arith in
      rw shift (rw (append_assoc log frames (taken ps)) at rest)

started-Follows :
    (a : UdpAdapter) (port : ℤ) (automatic : Bool) (now : ℕ) {started : UdpAdapter}
    → (start_adapter a port automatic true now).0 ≡ ok started
    → Follows a.desc started [] 0
unfolding start_adapter
started-Follows a port automatic now h = ground arith

-- After a start that succeeded and any packets: the ring holds the last 256 frames, in order, of the
-- packets that come from this machine and that the parser accepts; the counters hold the number of
-- these frames and of all packets, and every other packet is counted as invalid.
pub receive_all-Follows :
    (parse : List ℕ → ℕ → Result Text TelemetryFrame) (a : UdpAdapter) (port : ℤ) (automatic : Bool)
    (now : ℕ) (ps : List Packet) {started : UdpAdapter}
    → (start_adapter a port automatic true now).0 ≡ ok started
    → Follows a.desc (receive_all parse started ps) (taken parse a.desc ps) (length ps)
receive_all-Follows parse a port automatic now ps {started} h =
    let all : 0 + length ps ≡ length ps = omega arith in
    rw all at
      (receive_all-Follows_on parse a.desc started [] 0 ps (started-Follows a port automatic now h))
