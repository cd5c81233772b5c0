-- ===== src/Client/FrameCodec/Bounds.antt =====
-- What `TcpFrameCodec::Feed` does with any bytes at all.
use mathlib.Core.List.{flatten}
use wim.Prelude.{
  All, All-append, Bool-cases, List, Option-cases, String, [], ap, append-nil, append_assoc, arith,
  drop, drop-drop, false, inl, inr, length, length-append, length-drop, length-take, ltb, ltb→lt,
  refl, some, suc, sym, take, take-append-drop, true, zero, ℕ, ◌++◌, ◌+◌, ◌<◌, ◌^◌, ◌∙◌, ◌∷◌, ◌≡◌,
  ◌≤◌,
}
use wim.Client.FrameCodec.{
  DataStream, TcpFrameCodec, encode, feed, feed_all, feed_loop, has_error, header_size,
  maximum_payload_size, read_header,
}
use wim.Client.FrameCodec.RoundTrip.{IsFrame, encode-be32, encode_all}
use wim.Client.FrameCodec.Rounds.{
  feed_loop_bad_header, feed_loop_frame, feed_loop_partial, feed_loop_short, feed_loop_too_large,
}
use wim.Wire.{TcpFrame}
use wim.Wire.Word.{be32, length-be32}

no_bytes_left : (s n : ℕ) (r : List ℕ) → length (be32 s ++ (be32 n ++ r)) ≡ 8 → r ≡ []
no_bytes_left s n [] h = refl
no_bytes_left s n (x ∷ r) h = absurd (
    omega (
      arith,
      length-append (be32 s) (be32 n ++ x ∷ r),
      length-append (be32 n) (x ∷ r),
      length-be32 s,
      length-be32 n,
    ))

module _ (qt : DataStream) where
  header_parts :
      (bytes r r' : List ℕ) (s n : ℕ)
      → length bytes ≡ 8
      → qt.read_u32 bytes ≡ some (s, r)
      → qt.read_u32 r ≡ some (n, r')
      → (bytes ≡ be32 s ++ be32 n) × (s < 2 ^ 32) × (n < 2 ^ 32)
  header_parts bytes r r' s n len e1 e2 =
      let p1 = qt.reads_network_order bytes s r e1 in
      let p2 = qt.reads_network_order r n r' e2 in
      let all : bytes ≡ be32 s ++ (be32 n ++ r') = p1.0 ∙ ap (◌++◌ (be32 s)) p2.0 in
      let none_left : r' ≡ [] = no_bytes_left s n r' (sym (ap length all) ∙ len) in
      (
        all
            ∙ ap (λ x. be32 s ++ (be32 n ++ x)) none_left
            ∙ ap (◌++◌ (be32 s)) (append-nil (be32 n)),
        p1.1,
        p2.1,
      )

  header_of :
      (bytes : List ℕ) (s n : ℕ)
      → length bytes ≡ 8
      → read_header qt bytes ≡ some (s, n)
      → (bytes ≡ be32 s ++ be32 n) × (s < 2 ^ 32) × (n < 2 ^ 32)
  unfolding read_header
  header_of bytes s n len h = elim (Option-cases (qt.read_u32 bytes)) [
    | inl none1 ↦ absurd (ground arith)
    | inr ((s', r), some1) ↦ elim (Option-cases (qt.read_u32 r)) [
      | inl none2 ↦ absurd (ground arith)
      | inr ((n', r'), some2) ↦
          let same : (s' ≡ s) × (n' ≡ n) = ground arith in
          rw (← same.0, ← same.1) (header_parts bytes r r' s' n' len some1 some2)
    ]
  ]

  encode_all-append :
      (fs gs : List TcpFrame) → encode_all qt (fs ++ gs) ≡ encode_all qt fs ++ encode_all qt gs
  encode_all-append [] gs = refl
  encode_all-append (f ∷ fs) gs =
      rw (encode_all-append fs gs) (
        sym (append_assoc (encode qt f.service_id f.payload) (encode_all qt fs) (encode_all qt gs)))

  -- What a run of the loop from `acc` and `b` has done: the bytes are accounted for, or there is an
  -- error and nothing is kept.
  pub record Sound (acc : List TcpFrame) (b : List ℕ) (r : TcpFrameCodec × List TcpFrame)
      : Type 0 where
    pub bounded : length r.0.buffer < header_size + maximum_payload_size
    pub valid : All IsFrame r.1
    pub exact : has_error r.0 ≡ false → encode_all qt r.1 ++ r.0.buffer ≡ encode_all qt acc ++ b
    pub failed : has_error r.0 ≡ true → (r.1 ≡ []) × (r.0.buffer ≡ [])

  -- A round that finds a whole frame takes exactly its encoding off the buffer.
  IsFrame-exact :
      (b : List ℕ) (s n : ℕ)
      → header_size + n ≤ length b
      → n ≤ maximum_payload_size
      → read_header qt (take header_size b) ≡ some (s, n)
      → (encode qt s (take n (drop header_size b)) ++ drop (header_size + n) b ≡ b)
        × IsFrame (record { service_id = s; payload = take n (drop header_size b) })
  IsFrame-exact b s n long fits header =
      let body = take n (drop header_size b) in
      let len : length body ≡ n =
        omega (arith, length-take n (drop header_size b), length-drop header_size b) in
      let h =
        header_of (take header_size b) s n (omega (arith, length-take header_size b)) header in
      let valid : IsFrame (record { service_id = s; payload = body }) = (h.1, omega arith) in
      let e : encode qt s body ≡ take header_size b ++ body =
        encode-be32 qt (record { service_id = s; payload = body }) valid ∙ (rw (len, h.0)) in
      (
        rw (
          e,
          append_assoc,
          ← drop-drop n b header_size,
          take-append-drop n (drop header_size b),
          take-append-drop header_size b,
        ),
        valid,
      )

  feed_loop-Sound :
      (fuel : ℕ) (b : List ℕ) (acc : List TcpFrame)
      → length b < fuel
      → All IsFrame acc
      → Sound acc b (feed_loop qt fuel b acc)
  unfolding has_error
  feed_loop-Sound zero b acc h v = absurd (omega arith)
  feed_loop-Sound (suc fuel) b acc h v = elim (Bool-cases (ltb (length b) header_size)) [
    | inl short ↦
        rw (feed_loop_short qt fuel b acc (ltb→lt _ _ short))
          (stopped (omega (arith, ltb→lt (length b) header_size short)))
    | inr long ↦ elim (Option-cases (read_header qt (take header_size b))) [
      | inl bad ↦
          rw (feed_loop_bad_header qt fuel b acc (ground arith) bad)
            (gave_up "invalid TCP frame header" refl)
      | inr ((s, n), header) ↦ elim (Bool-cases (ltb maximum_payload_size n)) [
        | inl large ↦
            rw (feed_loop_too_large qt fuel b acc s n (ground arith) header (ground arith))
              (gave_up "TCP frame payload exceeds 10 MiB" refl)
        | inr fits ↦ elim (Bool-cases (ltb (length b) (header_size + n))) [
          | inl part ↦
              rw
                (feed_loop_partial qt fuel b acc s n (ground arith) header (ground arith)
                  (ltb→lt _ _ part))
                (stopped (ground arith))
          | inr whole ↦
              let n_le : n ≤ maximum_payload_size = ground arith in
              let room : header_size + n ≤ length b = ground arith in
              let f = IsFrame-exact b s n room n_le header in
              let frame : TcpFrame = record {
                service_id = s;
                payload = take n (drop header_size b);
              } in
              let ih =
                feed_loop-Sound fuel (drop (header_size + n) b) (acc ++ frame ∷ [])
                  (omega (arith, length-drop (header_size + n) b))
                  (All-append IsFrame acc (frame ∷ []) v (f.1, tt)) in
              rw (feed_loop_frame qt fuel b acc s n (omega arith) header n_le room) (record {
                bounded = ih.bounded;
                valid = ih.valid;
                exact = λ e.
                    ih.exact e
                    ∙ (rw (encode_all-append acc (frame ∷ []), append-nil, append_assoc, f.0));
                failed = ih.failed;
              })
        ]
      ]
    ]
  ]
    where
      stopped :
          length b < header_size + maximum_payload_size
          → Sound acc b (record { buffer = b; error = "" }, acc)
      stopped p = record { bounded = p; valid = v; exact = λ e. refl; failed = λ e. cc }

      gave_up :
          (message : String)
          → has_error (record { buffer = []; error = message }) ≡ true
          → Sound acc b (record { buffer = []; error = message }, [])
      gave_up message e = record {
        bounded = omega arith;
        valid = tt;
        exact = λ p. cc;
        failed = λ p. (refl, refl);
      }

  feed-Sound :
      (c : TcpFrameCodec) (bytes : List ℕ)
      → has_error c ≡ false
      → Sound [] (c.buffer ++ bytes) (feed qt c bytes)
  unfolding feed
  feed-Sound c bytes h =
      rw h
        (feed_loop-Sound (suc (length (c.buffer ++ bytes))) (c.buffer ++ bytes) [] (omega arith) tt)

  feed_after_error :
      (c : TcpFrameCodec) (bytes : List ℕ) → has_error c ≡ true → feed qt c bytes ≡ (c, [])
  unfolding feed
  feed_after_error c bytes h = rw h

  feed_all_after_error :
      (chunks : List (List ℕ)) (c : TcpFrameCodec)
      → has_error c ≡ true
      → feed_all qt c chunks ≡ (c, [])
  unfolding feed_all
  feed_all_after_error [] c h = refl
  feed_all_after_error (chunk ∷ chunks) c h =
      rw (feed_after_error c chunk h, feed_all_after_error chunks c h)

  -- Whatever bytes arrive in whatever reads, at a codec that has not failed: if it has not failed at
  -- the end, the frames returned and the bytes still buffered encode exactly the bytes that arrived,
  -- every frame is within the limit, and less than one frame of the largest size is buffered.
  pub feed_all_exact :
      (chunks : List (List ℕ)) (c : TcpFrameCodec)
      → has_error c ≡ false
      → length c.buffer < header_size + maximum_payload_size
      → has_error (feed_all qt c chunks).0 ≡ false
      → (encode_all qt (feed_all qt c chunks).1 ++ (feed_all qt c chunks).0.buffer
          ≡ c.buffer ++ flatten chunks)
        × All IsFrame (feed_all qt c chunks).1
        × (length (feed_all qt c chunks).0.buffer < header_size + maximum_payload_size)
  unfolding feed_all flatten
  feed_all_exact [] c h small e = (sym (append-nil c.buffer), tt, small)
  feed_all_exact (chunk ∷ chunks) c h small e = elim (Bool-cases (has_error (feed qt c chunk).0)) [
    | inl failed ↦ absurd (ground (arith, feed_all_after_error chunks (feed qt c chunk).0 failed))
    | inr fine ↦
        let s = feed-Sound c chunk h in
        let ih = feed_all_exact chunks (feed qt c chunk).0 fine s.bounded e in
        (
          (rw (
            encode_all-append (feed qt c chunk).1 (feed_all qt (feed qt c chunk).0 chunks).1,
            append_assoc,
            ih.0,
            ← append_assoc,
            s.exact fine,
            append_assoc c.buffer chunk (flatten chunks),
          )),
          All-append IsFrame (feed qt c chunk).1 _ s.valid ih.1,
          ih.2,
        )
  ]
