-- ===== src/Ffmpeg/CropDetect/Steps.antt =====
-- Every step of the loop keeps the state in line with the readings.
use media_processor.Prelude.{
  ℕ, ◌+◌, ◌<◌, ◌≡◌, refl, sym, ap, ◌∙◌, ◌⊎◌, inl, inr, Bool, true, false, List, [], ◌∷◌, ◌++◌,
  Option, none, some, arith, Bool-cases, leb,
}
use mathlib.Core.List.{append-nil, append_assoc}
use media_processor.Ffmpeg.CropDetect.{
  keyframe_switch_count, Metadata, Packet, Feed, packet, Push, frame, CropError, Libav, State, Run,
  and_then, drain_filter, push, add_frame, send_to_filter, count_frame, take_frame, drain_frames,
  drain_decoder, feed_decoder, after_send, send_packet, is_skipped, read_packet, read_packets,
}
use media_processor.Ffmpeg.CropDetect.Readings.{crops_of, readings, put_out, Tracked}
use media_processor.Ffmpeg.CropDetect.Tracking.{
  Keeps, retracked, halt_of-HaltsWell, drain_outputs-Keeps,
}

readings-append :
    (xs ys : List (Option Metadata)) → readings (xs ++ ys) ≡ readings xs ++ readings ys
readings-append [] ys = refl
readings-append (x ∷ xs) ys = ground (arith, readings-append xs ys)

put_out-append :
    (v : Libav) (b ps : List Push) (p : Push)
    → put_out v b (ps ++ p ∷ []) ≡ put_out v b ps ++ v.detect ((b ++ ps) ++ p ∷ [])
put_out-append v b [] p = rw (append-nil b, append-nil (v.detect (b ++ p ∷ []))) refl
put_out-append v b (q ∷ qs) p =
    ap (λ l. v.detect (b ++ q ∷ []) ++ l) (put_out-append v (b ++ q ∷ []) qs p)
    ∙ sym (append_assoc (v.detect (b ++ q ∷ [])) (put_out v (b ++ q ∷ []) qs) _)
    ∙ rw (append_assoc b (q ∷ []) qs) refl

pub push-Tracked : (v : Libav) (p : Push) (s : State) → Tracked v s → Tracked v (push v p s)
unfolding push
push-Tracked v p s t = record {
  headed = t.headed;
  stable = t.stable;
  positive = t.positive;
  linked =
      ap (λ l. crops_of s.log ++ l) (readings-append s.outputs (v.detect (s.pushes ++ p ∷ [])))
      ∙ sym (append_assoc (crops_of s.log) (readings s.outputs) _)
      ∙ ap (λ l. l ++ readings (v.detect (s.pushes ++ p ∷ []))) t.linked
      ∙ sym (readings-append (put_out v [] s.pushes) (v.detect (s.pushes ++ p ∷ [])))
      ∙ ap readings (sym (put_out-append v [] s.pushes p));
  phase = t.phase;
}

pub drain_filter-Keeps : (v : Libav) (s : State) → Tracked v s → Keeps v (drain_filter v s)
unfolding drain_filter
drain_filter-Keeps v s t = drain_outputs-Keeps v (v.get_error s.pushes) s.outputs s t

add_frame-Keeps :
    (v : Libav) (f : ℕ) (s : State) (e : Option CropError)
    → Tracked v s
    → Keeps v (add_frame v f s e)
unfolding add_frame
add_frame-Keeps v f s (some e) t = (t, tt)
add_frame-Keeps v f s none t =
    drain_filter-Keeps v (push v (frame f) s) (push-Tracked v (frame f) s t)

-- A phase once entered is kept.
count_frame-Tracked :
    (v : Libav) (s : State) (fs : List ℕ) → Tracked v s → Tracked v (count_frame s fs)
unfolding count_frame
count_frame-Tracked v s fs t = record {
  headed = t.headed;
  stable = t.stable;
  positive = t.positive;
  linked = t.linked;
  phase = next s.in_phase2 s.consecutive_stable s.frame_counter t.phase;
}
  where
    next :
        (b : Bool) (k n : ℕ)
        → ((b ≡ false) × (k ≡ 0)) ⊎ ((b ≡ true) × (keyframe_switch_count < n))
        → ((leb keyframe_switch_count n ≡ false) × (k ≡ 0))
          ⊎ ((leb keyframe_switch_count n ≡ true) × (keyframe_switch_count < n + 1))
    next b k n h = ground arith

take_frame-Keeps :
    (v : Libav) (f : ℕ) (fs : List ℕ) (s : State) → Tracked v s → Keeps v (take_frame v f fs s)
unfolding take_frame
take_frame-Keeps v f fs s t = elim (Bool-cases (send_to_filter s.frame_counter)) [
  | inl e ↦ rw e (
      add_frame-Keeps v f (count_frame s fs) (v.add_error s.pushes f)
        (count_frame-Tracked v s fs t))
  | inr e ↦ rw e (count_frame-Tracked v s fs t, tt)
]

and_then-Keeps :
    (v : Libav) (r : Run) (rest : State → Run)
    → Keeps v r
    → ((s : State) → Tracked v s → Keeps v (rest s))
    → Keeps v (and_then r rest)
unfolding and_then
and_then-Keeps v (s, some h) rest k next = k
and_then-Keeps v (s, none) rest k next = next s k.0

drain_frames-Keeps :
    (v : Libav) (e : Option CropError) (fs : List ℕ) (s : State)
    → Tracked v s
    → Keeps v (drain_frames v e fs s)
unfolding drain_frames
drain_frames-Keeps v e [] s t = (
  retracked v _ s (record s { frames = [] }) refl refl refl refl refl refl t,
  halt_of-HaltsWell (record s { frames = [] }) e,
)
drain_frames-Keeps v e (f ∷ fs) s t =
    and_then-Keeps v (take_frame v f fs s) (drain_frames v e fs) (take_frame-Keeps v f fs s t)
      (drain_frames-Keeps v e fs)

feed_decoder-Tracked :
    (v : Libav) (x : Feed) (s : State) → Tracked v s → Tracked v (feed_decoder v x s)
unfolding feed_decoder
feed_decoder-Tracked v x s t = retracked v _ s _ refl refl refl refl refl refl t

after_send-Keeps :
    (v : Libav) (x : Feed) (s : State) (e : Option CropError)
    → Tracked v s
    → Keeps v (after_send v x s e)
unfolding after_send drain_decoder
after_send-Keeps v x s (some e) t = (t, tt)
after_send-Keeps v x s none t = drain_frames-Keeps v _ _ _ (feed_decoder-Tracked v x s t)

pub send_packet-Keeps :
    (v : Libav) (x : Feed) (s : State) → Tracked v s → Keeps v (send_packet v x s)
unfolding send_packet
send_packet-Keeps v x s t = after_send-Keeps v x s (v.send_error s.feeds x) t

read_packet-Keeps : (v : Libav) (p : Packet) (s : State) → Tracked v s → Keeps v (read_packet v p s)
unfolding read_packet
read_packet-Keeps v p s t = elim (Bool-cases (is_skipped v p s)) [
  | inl e ↦ rw e (t, tt)
  | inr e ↦ rw e (send_packet-Keeps v (packet p) s t)
]

pub read_packets-Keeps :
    (v : Libav) (ps : List Packet) (s : State) → Tracked v s → Keeps v (read_packets v ps s)
unfolding read_packets
read_packets-Keeps v [] s t = (t, halt_of-HaltsWell s v.read_error)
read_packets-Keeps v (p ∷ ps) s t =
    and_then-Keeps v (read_packet v p s) (read_packets v ps) (read_packet-Keeps v p s t)
      (read_packets-Keeps v ps)
