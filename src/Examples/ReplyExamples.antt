-- ===== src/Examples/ReplyExamples.antt =====
-- The theorems on what instruments reply, at concrete inputs.
use kohdalab_iv.Common.{◌≡◌, refl, true, false, ok}
use kohdalab_iv.Common.Text.{
  Text, text_of, text_eq, uppercase, parse_u16, parse_digits_u16, strip_prefix, parse_u8,
  parse_digits,
}
use kohdalab_iv.Transport.Instruments.{source2, dialect}
use kohdalab_iv.Catalog.{instrument_descriptor}
use kohdalab_iv.Transport.Replies.{trim, starts_with}
use kohdalab_iv.Transport.Resources.{
  visa, gpib, usb, parse, parse_gpib, parse_fields, split_fields, resource, same_physical,
  same_native, lock_key, is_word,
}
use kohdalab_iv.Transport.Resources.Locks.{same_physical-lock_key}
use kohdalab_iv.Transport.Resources.Parsing.{IsValid, parse-Valid}
use kohdalab_iv.Transport.Identity.{verify_model, is_accepted, first_line}
use kohdalab_iv.Desktop.Safety.{SourceProtectionProfile, SourceCondition, source_condition}

gs210_named : verify_model source2 "YOKOGAWA_GS210" (text_of "YOKOGAWA,GS210,1,2\n") ≡ ok tt
unfolding verify_model dialect instrument_descriptor is_accepted first_line uppercase text_eq
gs210_named = refl

abbrev masks : SourceProtectionProfile
masks = record { low_limiter_mask = 1024; high_limiter_mask = 2048; emergency_mask = 8192 }

abbrev both_limits : SourceCondition
both_limits = record { register = 3328; low_limiter = true; high_limiter = true; emergency = false }

both_limits_read : source_condition (text_of "3328\n") masks ≡ ok both_limits
unfolding source_condition parse_u16 trim parse_digits_u16
both_limits_read = refl

abbrev visa_name : Text
visa_name = text_of "VISA::GPIB0::7::INSTR"

abbrev native_name : Text
native_name = text_of "GPIB0::7::INSTR"

visa_name_parsed : parse visa_name ≡ ok (visa visa_name (gpib native_name 7))
unfolding parse strip_prefix starts_with parse_fields split_fields is_word uppercase text_eq
    parse_gpib parse_u8 parse_digits
visa_name_parsed = refl

parse-Valid_example :
    (resource (visa visa_name (gpib native_name 7)) ≡ visa_name)
    × IsValid (visa visa_name (gpib native_name 7))
parse-Valid_example = parse-Valid visa_name (visa visa_name (gpib native_name 7)) visa_name_parsed

same_instrument :
    same_physical
      (visa visa_name (usb native_name (text_of "91") 2849 57))
      (usb native_name (text_of "91") 2849 57)
    ≡ true
unfolding same_physical same_native text_eq
same_instrument = refl

same_physical-lock_key_example :
    lock_key (visa visa_name (usb native_name (text_of "91") 2849 57))
    ≡ lock_key (usb native_name (text_of "91") 2849 57)
same_physical-lock_key_example =
    same_physical-lock_key (visa visa_name (usb native_name (text_of "91") 2849 57))
      (usb native_name (text_of "91") 2849 57) same_instrument
