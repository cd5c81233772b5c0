-- ===== src/Client/FrameCodec/RoundTrip.antt =====
-- What `TcpFrameCodec::Feed` does with a stream that encodes frames, however it is cut into chunks.
use mathlib.Core.List.{flatten}
use wim.Prelude.{
  All, Bool-cases, List, [], ap, append-nil, append_assoc, arith, drop, drop-append_le,
  drop-length-append, inl, inr, length, length-append, length-drop, ltb, ltb→lt, refl, some, suc,
  sym, take, take-append_le, take-length-append, zero, ℕ, ◌%◌, ◌++◌, ◌+◌, ◌<◌, ◌^◌, ◌∙◌, ◌∷◌, ◌≡◌,
  ◌≤◌,
}
use wim.Client.FrameCodec.{
  DataStream, TcpFrameCodec, encode, feed, feed_all, feed_loop, has_error, header_size,
  maximum_payload_size, read_header, reset,
}
use wim.Client.FrameCodec.Rounds.{
  feed_loop_frame, feed_loop_partial, feed_loop_short, read_header-be32,
}
use wim.Wire.{TcpFrame}
use wim.Wire.Word.{be32, length-be32}

-- What `Encode` is called with: an id of 32 bits, and a payload within the limit.
abbrev pub IsFrame : TcpFrame → Type 0
IsFrame f = (f.service_id < 2 ^ 32) × (length f.payload ≤ maximum_payload_size)

module _ (qt : DataStream) where
  abbrev pub encode_all : List TcpFrame → List ℕ
  encode_all [] = []
  encode_all (f ∷ fs) = encode qt f.service_id f.payload ++ encode_all fs

  pub encode-be32 :
      (f : TcpFrame)
      → IsFrame f
      → encode qt f.service_id f.payload
        ≡ (be32 f.service_id ++ be32 (length f.payload)) ++ f.payload
  unfolding encode
  encode-be32 f (hs, hn) =
      let small : length f.payload % 2 ^ 32 ≡ length f.payload = omega arith in
      rw
        (
          small,
          qt.writes_network_order f.service_id hs,
          qt.writes_network_order (length f.payload) (omega arith),
          append_assoc,
        )
        refl

  length-header : (s n : ℕ) → length (be32 s ++ be32 n) ≡ 8
  length-header s n = omega (arith, length-append (be32 s) (be32 n), length-be32 s, length-be32 n)

  pub length-encode :
      (f : TcpFrame) → IsFrame f → length (encode qt f.service_id f.payload) ≡ 8 + length f.payload
  length-encode f h = omega (
    arith,
    ap length (encode-be32 f h),
    length-append (be32 f.service_id ++ be32 (length f.payload)) f.payload,
    length-header f.service_id (length f.payload),
  )

  -- A buffer that the loop leaves: less than the next frame.
  abbrev pub IsPartial : List ℕ → List TcpFrame → Type 0
  IsPartial b [] = b ≡ []
  IsPartial b (f ∷ fs) = length b < 8 + length f.payload

  -- What a run of the loop has done, with `t` the bytes that have not arrived yet.
  pub record Progress (fs acc : List TcpFrame) (t : List ℕ) (r : TcpFrameCodec × List TcpFrame)
      : Type 0 where
    pub done : List TcpFrame
    pub rest : List TcpFrame
    pub split : fs ≡ done ++ rest
    pub frames : r.1 ≡ acc ++ done
    pub healthy : r.0.error ≡ ""
    pub buffered : r.0.buffer ++ t ≡ encode_all rest
    pub partial : IsPartial r.0.buffer rest
    pub rest_valid : All IsFrame rest

  module _ (f : TcpFrame) (fs : List TcpFrame) (b t : List ℕ) (valid : IsFrame f)
      (e : b ++ t ≡ encode_all (f ∷ fs)) where
    at_header :
        b ++ t ≡ (be32 f.service_id ++ be32 (length f.payload)) ++ (f.payload ++ encode_all fs)
    at_header =
        e
        ∙ (rw (encode-be32 f valid)
            (append_assoc (be32 f.service_id ++ be32 (length f.payload)) f.payload (encode_all fs)))

    header_read :
        header_size ≤ length b
        → read_header qt (take header_size b) ≡ some (f.service_id, length f.payload)
    header_read long =
        let hdr = be32 f.service_id ++ be32 (length f.payload) in
        let e1 : take 8 b ≡ hdr =
          sym (take-append_le 8 b t long)
          ∙ ap (take 8) at_header
          ∙ (rw (← length-header f.service_id (length f.payload))
              (take-length-append hdr (f.payload ++ encode_all fs))) in
        rw e1 (read_header-be32 qt f.service_id (length f.payload) valid.0 (omega arith))

    payload_read :
        header_size + length f.payload ≤ length b
        → take (length f.payload) (drop header_size b) ≡ f.payload
    payload_read long =
        let hdr = be32 f.service_id ++ be32 (length f.payload) in
        let e1 : drop 8 b ++ t ≡ f.payload ++ encode_all fs =
          sym (drop-append_le 8 b t (omega arith))
          ∙ ap (drop 8) at_header
          ∙ (rw (← length-header f.service_id (length f.payload))
              (drop-length-append hdr (f.payload ++ encode_all fs))) in
        sym (take-append_le (length f.payload) (drop 8 b) t (omega (arith, length-drop 8 b)))
        ∙ ap (take (length f.payload)) e1
        ∙ take-length-append f.payload (encode_all fs)

    rest_read :
        header_size + length f.payload ≤ length b
        → drop (header_size + length f.payload) b ++ t ≡ encode_all fs
    rest_read long =
        sym (drop-append_le (8 + length f.payload) b t long)
        ∙ ap (drop (8 + length f.payload)) e
        ∙ (rw (← length-encode f valid)
            (drop-length-append (encode qt f.service_id f.payload) (encode_all fs)))

  feed_loop-Progress :
      (fuel : ℕ) (fs acc : List TcpFrame) (b t : List ℕ)
      → length b < fuel
      → All IsFrame fs
      → b ++ t ≡ encode_all fs
      → Progress fs acc t (feed_loop qt fuel b acc)
  feed_loop-Progress zero fs acc b t h valid e = absurd (omega arith)
  feed_loop-Progress (suc fuel) [] acc (x ∷ b) t h valid e = cc
  feed_loop-Progress (suc fuel) [] acc [] t h valid e =
      rw (feed_loop_short qt fuel [] acc (omega arith)) (record {
        done = [];
        rest = [];
        split = refl;
        frames = sym (append-nil acc);
        healthy = refl;
        buffered = e;
        partial = refl;
        rest_valid = tt;
      })
  feed_loop-Progress (suc fuel) (f ∷ fs) acc b t h valid e =
      elim (Bool-cases (ltb (length b) header_size)) [
        | inl short ↦
            rw (feed_loop_short qt fuel b acc (ltb→lt _ _ short))
              (stopped (omega (arith, ltb→lt (length b) header_size short)))
        | inr long ↦ elim (Bool-cases (ltb (length b) (header_size + length f.payload))) [
          | inl part ↦
              rw
                (feed_loop_partial qt fuel b acc f.service_id (length f.payload) (ground arith)
                  (header_read f fs b t valid.0 e (ground arith)) valid.0.1 (ltb→lt _ _ part))
                (stopped (ltb→lt _ _ part))
          | inr whole ↦
              let fits : header_size + length f.payload ≤ length b = ground arith in
              let r =
                feed_loop-Progress fuel fs (acc ++ f ∷ []) (drop (header_size + length f.payload) b)
                  t (omega (arith, length-drop (header_size + length f.payload) b)) valid.1
                  (rest_read f fs b t valid.0 e fits) in
              rw
                (
                  feed_loop_frame qt fuel b acc f.service_id (length f.payload) (omega arith)
                      (header_read f fs b t valid.0 e (omega arith)) valid.0.1 fits,
                  payload_read f fs b t valid.0 e fits,
                )
                (record {
                  done = f ∷ r.done;
                  rest = r.rest;
                  split = ap (◌∷◌ f) r.split;
                  frames = r.frames ∙ append_assoc acc (f ∷ []) r.done;
                  healthy = r.healthy;
                  buffered = r.buffered;
                  partial = r.partial;
                  rest_valid = r.rest_valid;
                })
        ]
      ]
    where
      stopped :
          length b < 8 + length f.payload
          → Progress (f ∷ fs) acc t (record { buffer = b; error = "" }, acc)
      stopped p = record {
        done = [];
        rest = f ∷ fs;
        split = refl;
        frames = sym (append-nil acc);
        healthy = refl;
        buffered = e;
        partial = p;
        rest_valid = valid;
      }

  whole :
      (fs : List TcpFrame) (b : List ℕ)
      → All IsFrame fs
      → b ≡ encode_all fs
      → IsPartial b fs
      → (fs ≡ []) × (b ≡ [])
  whole [] b v e p = (refl, p)
  whole (f ∷ fs) b v e p = absurd (
      omega (
        arith,
        ap length e,
        length-append (encode qt f.service_id f.payload) (encode_all fs),
        length-encode f v.0,
      ))

  feed-Progress :
      (c : TcpFrameCodec) (chunk t : List ℕ) (fs : List TcpFrame)
      → c.error ≡ ""
      → All IsFrame fs
      → (c.buffer ++ chunk) ++ t ≡ encode_all fs
      → Progress fs [] t (feed qt c chunk)
  unfolding feed has_error
  feed-Progress c chunk t fs healthy valid e = rw healthy (
      feed_loop-Progress (suc (length (c.buffer ++ chunk))) fs [] (c.buffer ++ chunk) t
        (omega arith) valid e)

  feed_all_lem :
      (chunks : List (List ℕ)) (c : TcpFrameCodec) (fs : List TcpFrame)
      → c.error ≡ ""
      → All IsFrame fs
      → IsPartial c.buffer fs
      → c.buffer ++ flatten chunks ≡ encode_all fs
      → feed_all qt c chunks ≡ (reset c, fs)
  unfolding feed_all flatten
  feed_all_lem [] c fs healthy valid partial e =
      let w = whole fs c.buffer valid (sym (append-nil c.buffer) ∙ e) partial in ground (arith, w)
  feed_all_lem (chunk ∷ chunks) c fs healthy valid partial e =
      let p =
        feed-Progress c chunk (flatten chunks) fs healthy valid
          (append_assoc c.buffer chunk (flatten chunks) ∙ e) in
      let ih =
        feed_all_lem chunks (feed qt c chunk).0 p.rest p.healthy p.rest_valid p.partial
          p.buffered in
      rw (ih, p.frames, p.split)

  -- However the bytes of a sequence of frames are cut into reads, `Feed` from an empty codec returns
  -- exactly those frames, in order, and leaves the codec empty and without error. The frames are
  -- ones that `Encode` is for: ids of 32 bits, payloads of at most 10 MiB.
  pub feed_all-encode_all :
      (fs : List TcpFrame) (chunks : List (List ℕ))
      → All IsFrame fs
      → flatten chunks ≡ encode_all fs
      → feed_all qt (record { buffer = []; error = "" }) chunks
        ≡ (record { buffer = []; error = "" }, fs)
  feed_all-encode_all fs chunks valid e = feed_all_lem chunks _ fs refl valid (start fs) e
    where
      start : (gs : List TcpFrame) → IsPartial [] gs
      start [] = refl
      start (g ∷ gs) = omega arith
