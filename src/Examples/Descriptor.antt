-- ===== src/Examples/Descriptor.antt =====
-- The file of a concrete stage descriptor.
use corvint_tasks.Base.{ℕ, length, ◌≡◌, refl, true, any, arith, leb→le}
use corvint_tasks.Text.{Text, txt, text_eq, split}
use corvint_tasks.Wire.Code.{ok, err, malformed, unsupported_version}
use corvint_tasks.Samples.{zero_sum}
use corvint_tasks.Snapshot.Stage.{max_stage_descriptor_bytes, stage_limits}
use corvint_tasks.Snapshot.Paths.{request_path, or_empty}
use corvint_tasks.Snapshot.Shape.{shape}
use corvint_tasks.Snapshot.Descriptor.{
  descriptor_value, decode_descriptor, encode_descriptor, read_descriptor, stage_roles,
}
use corvint_tasks.Snapshot.Descriptor.RoundTrip.{
  IsDescription, IsDescriptor, decode_descriptor-descriptor_value,
}
use corvint_tasks.Snapshot.Head.RoundTrip.{IsReadable}
use corvint_tasks.Wire.Parse.{set_defaults, array_bound, is_wide, count}
use corvint_tasks.Wire.Parse.Shape.{size, IsWithin}
use corvint_tasks.Wire.Value.{Value, str, obj, object, set, get}
use corvint_tasks.Wire.Encode.{encode_file}
use corvint_tasks.Wire.Utf8.{check_hostile}
use corvint_tasks.Wire.Decimal.{count_of}
use corvint_tasks.Wire.Primitives.{parse_identifier, parse_digest}
use corvint_tasks.Wire.Ids.{parse_queue_id}
use corvint_tasks.Wire.Clock.{parse_timestamp}
use corvint_tasks.Wire.Reader.{check_profile}
use corvint_tasks.Examples.Transaction.{described, pause_descriptor, pause_shape}

described_parts :
    (i : ℕ) (role target : Text)
    → any (text_eq role) stage_roles ≡ true
    → parse_identifier target ≡ ok target
    → IsDescription (described i role target)
unfolding parse_digest
described_parts i role target r t = record {
  role = r;
  target = t;
  digest = refl;
  size_bound = omega arith;
}

pause_descriptor-IsReadable : IsReadable (descriptor_value pause_descriptor)
unfolding descriptor_value object set set_defaults IsWithin text_eq check_hostile array_bound
    is_wide count get size count_of request_path
pause_descriptor-IsReadable = record {
  within = (
    omega arith,
    (
      refl,
      refl,
      refl,
      (
        refl,
        refl,
        refl,
        (
          refl,
          refl,
          refl,
          (
            refl,
            refl,
            refl,
            (
              refl,
              refl,
              refl,
              (
                refl,
                refl,
                refl,
                (
                  refl,
                  refl,
                  (omega arith, (refl, refl, refl, (refl, refl, refl, tt))),
                  (
                    refl,
                    refl,
                    (
                      omega arith,
                      omega arith,
                      (
                        (
                          omega arith,
                          (
                            refl,
                            refl,
                            refl,
                            (
                              refl,
                              refl,
                              refl,
                              (refl, refl, refl, (refl, refl, refl, (refl, refl, refl, tt))),
                            ),
                          ),
                        ),
                        (
                          (
                            omega arith,
                            (
                              refl,
                              refl,
                              refl,
                              (
                                refl,
                                refl,
                                refl,
                                (refl, refl, refl, (refl, refl, refl, (refl, refl, refl, tt))),
                              ),
                            ),
                          ),
                          (
                            (
                              omega arith,
                              (
                                refl,
                                refl,
                                refl,
                                (
                                  refl,
                                  refl,
                                  refl,
                                  (refl, refl, refl, (refl, refl, refl, (refl, refl, refl, tt))),
                                ),
                              ),
                            ),
                            (
                              (
                                omega arith,
                                (
                                  refl,
                                  refl,
                                  refl,
                                  (
                                    refl,
                                    refl,
                                    refl,
                                    (refl, refl, refl, (refl, refl, refl, (refl, refl, refl, tt))),
                                  ),
                                ),
                              ),
                              tt,
                            ),
                          ),
                        ),
                      ),
                    ),
                    tt,
                  ),
                ),
              ),
            ),
          ),
        ),
      ),
    ),
  );
  few = omega arith;
}

pause_descriptor-IsDescriptor : IsDescriptor zero_sum pause_descriptor
unfolding parse_queue_id split parse_timestamp request_path parse_digest shape encode_file
    descriptor_value
pause_descriptor-IsDescriptor =
    let file = encode_file (descriptor_value pause_descriptor) in
    record {
      id = _;
      queue = refl;
      raw = refl;
      operation = refl;
      request_digest = refl;
      recorded = refl;
      base = record { seq_bound = omega arith; last_digest = refl };
      artifacts = (
        described_parts 0 (txt "HEAD") (txt "head.json") refl refl,
        (
          described_parts 1 (txt "POST") (txt "barrier.json") refl refl,
          (
            described_parts 2 (txt "POST") (or_empty (request_path zero_sum (txt "r1"))) refl refl,
            (described_parts 3 (txt "RECEIPT") (txt "receipts/000000000005.json") refl refl, tt),
          ),
        ),
      );
      name = _;
      request = refl;
      shaped = pause_shape;
      readable = pause_descriptor-IsReadable;
      short = leb→le (length file) (stage_limits pause_descriptor.operation).1 refl;
      below = leb→le (length file) max_stage_descriptor_bytes refl;
    }

decode_descriptor-descriptor_value_example :
    (decode_descriptor zero_sum (encode_file (descriptor_value pause_descriptor))
      ≡ ok pause_descriptor)
    × (encode_descriptor zero_sum pause_descriptor
        ≡ ok (encode_file (descriptor_value pause_descriptor)))
decode_descriptor-descriptor_value_example =
    decode_descriptor-descriptor_value zero_sum pause_descriptor pause_descriptor-IsDescriptor

-- A value with another profile.
abbrev with_profile : Text → Value → Value
with_profile profile (obj ms) = obj (set ms (txt "profile") (str profile))
with_profile profile v = v

-- The same fields under another profile are refused, and under a later version by a code of its own.
other_profile :
    read_descriptor (with_profile (txt "taskman-head/0") (descriptor_value pause_descriptor))
    ≡ err malformed
unfolding read_descriptor descriptor_value object set check_profile
other_profile = refl

later_profile :
    read_descriptor (with_profile (txt "taskman-stage/1") (descriptor_value pause_descriptor))
    ≡ err unsupported_version
unfolding read_descriptor descriptor_value object set check_profile
later_profile = refl
