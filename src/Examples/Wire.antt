-- ===== src/Examples/Wire.antt =====
-- Runs of the protocol's numbers and of the client's frame codec.
use mathlib.Core.List.{flatten}
use wim.Prelude.{All, List, [], arith, false, length, refl, ℕ, ◌++◌, ◌+◌, ◌<◌, ◌∷◌, ◌≡◌, ◌≤◌}
use wim.Client.FrameCodec.{
  TcpFrameCodec, encode, feed, feed_all, feed_loop, has_error, header_size, maximum_payload_size,
  network_stream, read_header,
}
use wim.Client.FrameCodec.Bounds.{feed_all_exact}
use wim.Client.FrameCodec.RoundTrip.{IsFrame, encode_all, feed_all-encode_all}
use wim.Gateway.Manager.Topology.{reconnect_delay, with_jitter}
use wim.Gateway.Manager.Topology.Backoff.{reconnect_delay_bounds}
use wim.Gateway.Session.Reading.{run_reads, run_reads-encode_all}
use wim.Protocol.{
  ErrorCodes, ServiceId, client_error_value, client_is_retryable_error, client_service_value,
  error_value, get_service_response_id, is_retryable_error, response_for, service_value,
}
use wim.Protocol.Agreement.{protocols_agree}
use wim.Wire.{TcpFrame}
use wim.Wire.Word.{be32, read_be32}

protocols_agree_example :
    (error_value ErrorCodes.rpc_failed ≡ client_error_value ErrorCodes.rpc_failed)
    × (service_value ServiceId.text_send_req ≡ client_service_value ServiceId.text_send_req)
    × (is_retryable_error 1001 ≡ client_is_retryable_error 1001)
    × (get_service_response_id 1027 ≡ response_for 1027)
protocols_agree_example =
    protocols_agree ErrorCodes.rpc_failed ServiceId.text_send_req 1001 1027 (omega arith)

abbrev two_frames : List TcpFrame
two_frames =
    record { service_id = 1013; payload = 7 ∷ 8 ∷ [] }
    ∷ record { service_id = 1011; payload = [] }
    ∷ []

-- The bytes of the two frames in three reads.
abbrev three_reads : List (List ℕ)
three_reads =
    (0 ∷ 0 ∷ 3 ∷ [])
    ∷ (245 ∷ 0 ∷ 0 ∷ 0 ∷ 2 ∷ 7 ∷ [])
    ∷ (8 ∷ 0 ∷ 0 ∷ 3 ∷ 243 ∷ 0 ∷ 0 ∷ 0 ∷ 0 ∷ [])
    ∷ []

three_reads-encode : flatten three_reads ≡ encode_all network_stream two_frames
unfolding be32 wim.Client.FrameCodec.encode flatten
three_reads-encode = refl

feed_all-encode_all_example :
    feed_all network_stream (record { buffer = []; error = "" }) three_reads
    ≡ (record { buffer = []; error = "" }, two_frames)
feed_all-encode_all_example =
    feed_all-encode_all network_stream two_frames three_reads
      ((omega arith, omega arith), ((omega arith, omega arith), tt)) three_reads-encode

abbrev empty_codec : TcpFrameCodec
empty_codec = record { buffer = []; error = "" }

three_reads-healthy : has_error (feed_all network_stream empty_codec three_reads).0 ≡ false
unfolding has_error feed_all wim.Client.FrameCodec.feed wim.Client.FrameCodec.feed_loop
    wim.Client.FrameCodec.read_header wim.Wire.Word.read_be32
three_reads-healthy = refl

feed_all_exact_example :
    (encode_all network_stream (feed_all network_stream empty_codec three_reads).1
        ++ (feed_all network_stream empty_codec three_reads).0.buffer
      ≡ empty_codec.buffer ++ flatten three_reads)
    × All IsFrame (feed_all network_stream empty_codec three_reads).1
    × (length (feed_all network_stream empty_codec three_reads).0.buffer
        < header_size + maximum_payload_size)
unfolding has_error
feed_all_exact_example =
    feed_all_exact network_stream three_reads empty_codec refl (omega arith) three_reads-healthy

reconnect_delay_bounds_example :
    (200 ≤ with_jitter (reconnect_delay 3) 17)
    × (with_jitter (reconnect_delay 3) 17 ≤ 12500)
    × (reconnect_delay 3 ≤ reconnect_delay 4)
    × (reconnect_delay 9 ≡ 10000)
reconnect_delay_bounds_example = reconnect_delay_bounds 3 17

run_reads-encode_all_example :
    run_reads (encode_all network_stream two_frames ++ (0 ∷ 0 ∷ 3 ∷ [])) ≡ two_frames
run_reads-encode_all_example =
    run_reads-encode_all network_stream two_frames (0 ∷ 0 ∷ 3 ∷ [])
      ((omega arith, omega arith), ((omega arith, omega arith), tt)) (omega arith)
