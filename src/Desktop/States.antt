-- ===== src/Desktop/States.antt =====
-- crates/iv-desktop/src/state.rs: the typed states of a run, and the kind of an error message.
use kohdalab_iv.Common.{Bool, true, false, ◌||◌, [], ◌∷◌, if◌then◌else◌}
use kohdalab_iv.Common.Text.{Text, text_of, lowercase, contains}

pub data Phase : Type 0 where
  idle scanning connecting ready switching_mode preparing running cleaning_up failed : Phase
  compliance_stop source_limit_stop stopped completed : Phase

pub data OutputState : Type 0 where
  unknown off on : OutputState

pub data Activity : Type 0 where
  idle preflight configuring ramping settling acquiring saving : Activity
  returning_to_zero verifying_output_off : Activity

pub data ErrorKind : Type 0 where
  none invalid_configuration identity_mismatch timeout disconnected overload storage : ErrorKind
  output_safety protocol other : ErrorKind

pub record Failure : Type 0 where
  pub message : Text
  pub kind : ErrorKind

unfoldable pub is_empty : Text → Bool
is_empty [] = true
is_empty (c ∷ s) = false

-- `Failure::from`: the first rule that the lower-case message meets.
unfoldable pub error_kind : Text → ErrorKind
unfolding is_empty
error_kind text =
    if is_empty text
    then none
    else (if contains (text_of "output off") text || contains (text_of "source output") text
        then output_safety
        else (if contains (text_of "identity") text || contains (text_of "matching models") text
            then identity_mismatch
            else (if contains (text_of "timeout") text || contains (text_of "timed out") text
                then timeout
                else (if contains (text_of "overload") text
                    then overload
                    else (if contains (text_of "csv") text
                          || (contains (text_of "result folder") text
                              || contains (text_of "metadata") text)
                        then storage
                        else (if contains (text_of "disconnected") text
                              || (contains (text_of "reconnect") text
                                  || (contains (text_of "transport") text
                                      || contains (text_of "engine exited") text))
                            then disconnected
                            else (if contains (text_of "protocol") text
                                  || contains (text_of "invalid response") text
                                then protocol
                                else (if contains (text_of "invalid") text
                                      || (contains (text_of "limit") text
                                          || (contains (text_of "range") text
                                              || contains (text_of "must") text))
                                    then invalid_configuration
                                    else other))))))))

unfoldable pub failure : Text → Failure
unfolding error_kind
failure text = record { message = text; kind = error_kind (lowercase text) }

-- `Failure::clear`.
unfoldable pub clear : Failure → Failure
clear f = record { message = []; kind = none }

-- `completion_phase` of engine/workflow.rs.
unfoldable pub completion_phase : Bool → Bool → Bool → Bool → Phase
completion_phase run_failed cleanup_failed compliance was_stopped =
    if run_failed || cleanup_failed
    then failed
    else (if compliance then compliance_stop else (if was_stopped then stopped else completed))
