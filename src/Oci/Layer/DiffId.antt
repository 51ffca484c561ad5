-- ===== src/Oci/Layer/DiffId.antt =====
-- What a layer that was unpacked is.
use kernlet.Common.{
  Bytes, none, Bool, true, false, not, Result, ok, within, within-eq-ok, equal, equal→eq, ◌≡◌,
  arith, Bool-cases, inl, inr, if◌then◌else◌,
}
use kernlet.Sys.{Trace, Os}
use kernlet.Sys.Returns.{
  Returns, Returns-then, Returns-pure, Returns-bind-lift, Returns-if, Returns-fail,
  Returns-deferred,
}
use kernlet.Oci.Image.{Stream, Codecs, gzip_layer_media_type}
use kernlet.Oci.Layer.{drain, diff_id, unpack_opened, unpack_stream, unpack_gzip, unpack_layer}

-- The bytes of the archive in a layer blob.
abbrev pub layer_stream : Codecs → Bytes → Bytes → Stream
layer_stream codecs media_type blob =
    if equal media_type gzip_layer_media_type
    then (codecs.gunzip blob).stream
    else record { content = blob; broken = none }

-- The stream was read to its end, and its hash is the one that the configuration gives.
abbrev pub IsVerified : Codecs → Stream → Bytes → Type 0
IsVerified codecs stream expected =
    (stream.broken ≡ none) × (diff_id codecs stream.content ≡ expected)

not-false : (b : Bool) → not b ≡ false → b ≡ true
not-false b h = ground arith

drained : (stream : Stream) → drain stream ≡ ok tt → stream.broken ≡ none
unfolding drain
drained stream h = ground arith

module _ (os : Os) (codecs : Codecs) where
  unpack_opened-IsVerified :
      (stream : Stream) (closed : Result (Unit {0})) (expected : Bytes)
      → Returns
          (λ _. IsVerified codecs stream expected)
          (unpack_opened os codecs stream closed expected)
  unfolding unpack_opened
  unpack_opened-IsVerified stream closed expected = Returns-then _ _ λ _.
      Returns-bind-lift (within "finish reading layer" (drain stream)) _ λ _ finished.
        Returns-then _ _ λ _.
          Returns-if (not (equal (diff_id codecs stream.content) expected)) _ _
            (λ _. Returns-fail _)
            λ same. Returns-pure tt (
              drained stream (within-eq-ok "finish reading layer" (drain stream) tt finished),
              equal→eq (diff_id codecs stream.content) expected (not-false _ same),
            )

  unpack_stream-IsVerified :
      (rootfs : Bytes) (stream : Stream) (closed : Result (Unit {0})) (expected : Bytes)
      → Returns
          (λ _. IsVerified codecs stream expected)
          (unpack_stream os codecs rootfs stream closed expected)
  unfolding unpack_stream
  unpack_stream-IsVerified rootfs stream closed expected =
      Returns-then _ _ λ _. Returns-deferred _ _ (unpack_opened-IsVerified stream closed expected)

  unpack_layer-Returns :
      (rootfs blob media_type expected : Bytes)
      → Returns
          (λ _. IsVerified codecs (layer_stream codecs media_type blob) expected)
          (unpack_layer os codecs rootfs blob media_type expected)
  unfolding unpack_layer
  unpack_layer-Returns rootfs blob media_type expected =
      elim (Bool-cases (equal media_type gzip_layer_media_type)) [
        | inl zipped ↦
            rw (zipped, unpack_layer)
              (unfold unpack_gzip in
                Returns-then _ _ λ _.
                  unpack_stream-IsVerified rootfs (codecs.gunzip blob).stream
                    (codecs.gunzip blob).closed expected)
        | inr plain ↦
            rw (plain, unpack_layer)
              (unpack_stream-IsVerified rootfs (record { content = blob; broken = none }) (ok tt)
                expected)
      ]

-- If unpackLayer succeeds, the uncompressed layer was read to its end with no error, and its SHA-256
-- hash is the diff ID that the configuration gives.
pub unpack_layer-IsVerified :
    (os : Os) (codecs : Codecs) (rootfs blob media_type expected : Bytes) (t : Trace)
    → (unpack_layer os codecs rootfs blob media_type expected t).0 ≡ ok tt
    → IsVerified codecs (layer_stream codecs media_type blob) expected
unpack_layer-IsVerified os codecs rootfs blob media_type expected t h =
    (unpack_layer-Returns os codecs rootfs blob media_type expected).at t tt h
