-- ===== src/Shoutcast.antt =====
-- savate/shoutcast_source.py: a source whose stream carries metadata every `icy_metaint` bytes of
-- audio. The frame parser is a parameter, with an exception as `none`; so is int(), without signs.
pub mod Demux
pub mod Client
pub mod Source
mod Examples
use savate.Prelude.{
  Bytes, Option, [], bytes_eq, drop, if◌then◌else◌, length, ltb, nat_eq, none, some, suc, take,
  zero, ℕ, ◌*◌, ◌++◌, ◌+◌, ◌-◌, ◌==◌, ◌∷◌,
}
use savate.Sources.Raw

-- `bytes_count`: `counted n` is n, `owed n` is -n.
pub data Count : Type 0 where
  counted : ℕ → Count
  owed : ℕ → Count

-- What the class adds for the metadata.
pub record Icy : Type 0 where
  pub icy_metaint : ℕ
  pub bytes_count : Count
  pub buffer_metadata : Bytes
  pub metadata : Bytes

-- packet[: m - n] and packet[m - n :], where a negative index counts from the end.
pub cut : ℕ → ℕ → Bytes → Bytes × Bytes
cut m n packet =
    let k = if ltb m n then length packet - (n - m) else m - n in (take k packet, drop k packet)

-- Where `n` bytes of metadata are missing: those of the packet are taken in.
pub take_metadata : ℕ → Bytes → Icy → Icy
take_metadata n taken s =
    let buffer = s.buffer_metadata ++ taken in
    if length taken == n
    then record s { bytes_count = counted 0; buffer_metadata = []; metadata = buffer }
    else record s { bytes_count = owed (n - length taken); buffer_metadata = buffer }

-- The loop of `metadata_parse`: the audio of the packet, and the state after it. `none` is no end
-- within the fuel.
pub parse : ℕ → Bytes → Icy → Option (Bytes × Icy)
parse zero packet s = none
parse (suc fuel) [] s = some ([], s)
parse (suc fuel) (b ∷ packet) s = elim s.bytes_count [
  | owed n ↦ parse fuel (drop n (b ∷ packet)) (take_metadata n (take n (b ∷ packet)) s)
  | counted n ↦
      if n == s.icy_metaint
      then parse fuel (b ∷ packet) (record s { bytes_count = owed (b * 16 + 1) })
      else (elim (parse fuel (cut s.icy_metaint n (b ∷ packet)).1
          (record s { bytes_count = counted (n + length (cut s.icy_metaint n (b ∷ packet)).0) })) [
            | none ↦ none
            | some (audio, s') ↦ some ((cut s.icy_metaint n (b ∷ packet)).0 ++ audio, s')
          ])
]

-- `metadata_parse` on the working buffer. A round without progress is followed by one with.
pub metadata_parse : Bytes → Icy → Option (Bytes × Icy)
metadata_parse working_buffer s = parse (2 * length working_buffer + 1) working_buffer s
