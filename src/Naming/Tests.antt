-- ===== src/Naming/Tests.antt =====
-- Runs of the validation of src/naming.rs, and its theorems at concrete names.
use pg_ros.Base.{◌<◌, ◌≡◌, refl, ◌↔◌, Text, ascii, ok, err, length}
use pg_ros.Naming.{
  not_qualified, bad_segment, channel_limit, validate_topic, validate_channel, is_head_byte,
  is_tail_byte,
}
use pg_ros.Naming.Grammar.{IsTopic, validate_topic_iff, validate_channel_iff}

abbrev joint_states : Text
joint_states = ascii "/robot_1/joint_states"

accepts : validate_topic joint_states ≡ ok tt
unfolding validate_topic is_head_byte is_tail_byte
accepts = refl

rejects_leading_digit : validate_topic (ascii "/0digit") ≡ err bad_segment
unfolding validate_topic is_head_byte is_tail_byte
rejects_leading_digit = refl

rejects_trailing_slash : validate_topic (ascii "/trailing/") ≡ err bad_segment
unfolding validate_topic is_head_byte is_tail_byte
rejects_trailing_slash = refl

rejects_relative : validate_topic (ascii "relative") ≡ err not_qualified
unfolding validate_topic is_head_byte is_tail_byte
rejects_relative = refl

validate_topic_iff_example : (validate_topic joint_states ≡ ok tt) ↔ IsTopic joint_states
validate_topic_iff_example = validate_topic_iff joint_states

validate_channel_iff_example :
    (validate_channel 64 joint_states ≡ ok tt) ↔ ((length joint_states < 64) × IsTopic joint_states)
validate_channel_iff_example = validate_channel_iff 64 joint_states

-- PostgreSQL's limit is tested before the name.
too_long : validate_channel 4 (ascii "/0digit") ≡ err channel_limit
unfolding validate_channel
too_long = refl
