-- ===== src/Client/FrameCodec/Rounds.antt =====
-- One round of the loop of `TcpFrameCodec::Feed`, on each of its branches.
use wim.Prelude.{
  ℕ, suc, ◌+◌, ◌%◌, ◌^◌, ◌≤◌, ◌<◌, ◌≡◌, none, some, List, [], ◌∷◌, ◌++◌, append-nil, arith, length,
  take, drop,
}
use wim.Wire.{TcpFrame}
use wim.Wire.Word.{be32}
use wim.Client.FrameCodec.{DataStream, header_size, maximum_payload_size, read_header, feed_loop}

module _ (qt : DataStream) where
  pub read_header-be32 :
      (s n : ℕ) → s < 2 ^ 32 → n < 2 ^ 32 → read_header qt (be32 s ++ be32 n) ≡ some (s, n)
  unfolding read_header
  read_header-be32 s n hs hn =
      ground (arith, qt.reads_back s (be32 n) hs, qt.reads_back n [] hn, append-nil (be32 n))

  module _ (fuel : ℕ) (b : List ℕ) (acc : List TcpFrame) where
    pub feed_loop_short :
        length b < header_size
        → feed_loop qt (suc fuel) b acc ≡ (record { buffer = b; error = "" }, acc)
    unfolding feed_loop
    feed_loop_short h = ground arith

    pub feed_loop_bad_header :
        header_size ≤ length b
        → read_header qt (take header_size b) ≡ none
        → feed_loop qt (suc fuel) b acc
          ≡ (record { buffer = []; error = "invalid TCP frame header" }, [])
    unfolding feed_loop
    feed_loop_bad_header h e = ground arith

    module _ (s n : ℕ) (long : header_size ≤ length b)
        (header : read_header qt (take header_size b) ≡ some (s, n)) where
      pub feed_loop_too_large :
          maximum_payload_size < n
          → feed_loop qt (suc fuel) b acc
            ≡ (record { buffer = []; error = "TCP frame payload exceeds 10 MiB" }, [])
      unfolding feed_loop
      feed_loop_too_large h = ground arith

      pub feed_loop_partial :
          n ≤ maximum_payload_size
          → length b < header_size + n
          → feed_loop qt (suc fuel) b acc ≡ (record { buffer = b; error = "" }, acc)
      unfolding feed_loop
      feed_loop_partial fits h = ground arith

      pub feed_loop_frame :
          n ≤ maximum_payload_size
          → header_size + n ≤ length b
          → feed_loop qt (suc fuel) b acc
            ≡ feed_loop qt fuel
                (drop (header_size + n) b)
                (acc ++ (record { service_id = s; payload = take n (drop header_size b) } ∷ []))
      unfolding feed_loop
      feed_loop_frame fits h =
          let total : (header_size + n) % 2 ^ 32 ≡ header_size + n = omega arith in
          rw (header, total, feed_loop) (ground arith)
