-- ===== src/Shoutcast/Source/Delivery.antt =====
-- savate/shoutcast_source.py: a source whose audio is in frames.
use savate.Prelude.{
  Bool, Bool-cases, Bytes, List, [], append-nil, arith, drop, inl, inr, length, ltb, refl, some,
  sym, take, ℕ, ◌++◌, ◌<◌, ◌∷◌, ◌≡◌, ◌≤◌,
}
use savate.Shoutcast.Source.{ShoutcastSource, gather_frames, handle_packet, handled, read_audio}
use savate.BurstQueue.Bounds.{IsCounted}
use savate.AudioParser.{Header}
use savate.AudioParser.Framing.{Framed, IsInStep, feed-Framed}
use savate.Sources.Raw.{RawSource, low_bitrate_temp_buffer_size}
use savate.Sources.Raw.Delivery.{Handled, send_out-Handled}
use savate.Shoutcast.{Icy}

gather_frames-Handled :
    (clients : Bool) (frames : Bytes) (s : RawSource)
    → IsCounted s.burst_packets
    → (s' : RawSource) × (out : List Bytes) × (gather_frames clients frames s ≡ some s')
      × (length s'.output_buffer_data ≤ low_bitrate_temp_buffer_size)
      × Handled s frames out s'
unfolding gather_frames
gather_frames-Handled clients frames s v =
    let gathered = s.output_buffer_data ++ frames in
    elim (Bool-cases (ltb low_bitrate_temp_buffer_size (length gathered))) [
      | inl full ↦
          let (s', p, l, h) =
            send_out-Handled clients frames gathered [] s (append-nil gathered) v in
          (s', gathered ∷ [], rw full p, rw l (omega arith), h)
      | inr room ↦ (
        record s { output_buffer_data = gathered },
        [],
        rw room,
        ground (arith, room),
        record { sent = sym (append-nil _); complete = refl; counted = v },
      )
    ]

-- The audio of a packet, if it goes on with a row of frames, is handled without an error by a source in
-- step: the frames that are complete are, after what had been gathered, published or gathered on, at
-- most 8 KiB of them; the rest stays with the parser, and the source is in step again.
pub handle_packet-IsInStep :
    (handle_headers : Bytes → ℕ → Header) (fuel : ℕ) (clients : Bool) (packet : Bytes)
    (s : ShoutcastSource) (a : ℕ) (audio : Bytes) (icy : Icy) (v : ℕ)
    → IsCounted s.raw.burst_packets
    → IsInStep s.frame_parser
    → read_audio (s.working_buffer ++ packet) s.icy ≡ some (a ∷ audio, icy)
    → Framed handle_headers (s.frame_parser.buffer ++ a ∷ audio) 0 v
    → length (s.frame_parser.buffer ++ a ∷ audio) < fuel
    → (s' : ShoutcastSource) × (out : List Bytes) × (handle_packet handle_headers fuel clients
          packet s
        ≡ handled s')
      × Handled s.raw (take v (s.frame_parser.buffer ++ a ∷ audio)) out s'.raw
      × (length s'.raw.output_buffer_data ≤ low_bitrate_temp_buffer_size)
      × (s'.frame_parser.buffer ≡ drop v (s.frame_parser.buffer ++ a ∷ audio))
      × IsInStep s'.frame_parser
unfolding handle_packet
handle_packet-IsInStep hh fuel clients packet s a audio icy v c st e f h =
    let (q, fe, qb, qs) = feed-Framed hh fuel (a ∷ audio) s.frame_parser v st f h in
    let (raw, out, ge, gl, gh) =
      gather_frames-Handled clients (take v (s.frame_parser.buffer ++ a ∷ audio)) s.raw c in
    (
      record s { raw = raw; icy = icy; frame_parser = q; working_buffer = [] },
      out,
      ground (arith, e, fe, ge),
      gh,
      gl,
      qb,
      qs,
    )
