-- ===== src/Content/Errors.antt =====
-- The errors of contentServer: the sentinels of internal/domain/errors.go, internal/event/task.go,
-- internal/respository/post_card.go and internal/model/vars.go, and how errors wrap one another.
pub use lets_go.Strings.{Text}
use lets_go.Prelude.{ℕ, Bool, true, false, ◌==◌}
use lets_go.Sql.{HasDriver}

pub data Sentinel : Type 0 where
  media_asset_not_ready media_asset_not_found draft_not_found draft_content_invalid : Sentinel
  publish_not_allowed invalid_post draft_post_mismatch invalid_post_id invalid_user_id : Sentinel
  invalid_revision_id invalid_lifecycle_status invalid_visibility invalid_asset_id : Sentinel
  invalid_version draft_version_conflict post_not_found post_not_published : Sentinel
  post_not_visible revision_not_found post_already_deleted post_operation_not_allowed : Sentinel
  post_version_conflict tag_name_invalid too_many_tags tag_unavailable : Sentinel
  claim_lost worker_stopped already_running worker_shutdown_timeout superseded : Sentinel
  post_card_superseded post_card_source_missing post_card_source_invalid : Sentinel
  not_found : Sentinel

-- Distinct numbers for the sentinels, which Go tells apart by their addresses.
abbrev number : Sentinel → ℕ
number Sentinel.media_asset_not_ready = 0
number Sentinel.media_asset_not_found = 1
number Sentinel.draft_not_found = 2
number Sentinel.draft_content_invalid = 3
number Sentinel.publish_not_allowed = 4
number Sentinel.invalid_post = 5
number Sentinel.draft_post_mismatch = 6
number Sentinel.invalid_post_id = 7
number Sentinel.invalid_user_id = 8
number Sentinel.invalid_revision_id = 9
number Sentinel.invalid_lifecycle_status = 10
number Sentinel.invalid_visibility = 11
number Sentinel.invalid_asset_id = 12
number Sentinel.invalid_version = 13
number Sentinel.draft_version_conflict = 14
number Sentinel.post_not_found = 15
number Sentinel.post_not_published = 16
number Sentinel.post_not_visible = 17
number Sentinel.revision_not_found = 18
number Sentinel.post_already_deleted = 19
number Sentinel.post_operation_not_allowed = 20
number Sentinel.post_version_conflict = 21
number Sentinel.tag_name_invalid = 22
number Sentinel.too_many_tags = 23
number Sentinel.tag_unavailable = 24
number Sentinel.claim_lost = 25
number Sentinel.worker_stopped = 26
number Sentinel.already_running = 27
number Sentinel.worker_shutdown_timeout = 28
number Sentinel.superseded = 29
number Sentinel.post_card_superseded = 30
number Sentinel.post_card_source_missing = 31
number Sentinel.post_card_source_invalid = 32
number Sentinel.not_found = 33

-- What `errors.New` builds where it is returned, and no caller tests for.
pub data Message : Type 0 where
  lease_not_positive task_not_claimable recovery_lost_claim resolver_required : Message
  one_row_expected consumer_or_handler_missing handler_registered nil_task : Message
  handler_not_registered task_key_required card_task_missing unsupported_card_event : Message
  decode_publication invalid_publication_version decode_header callback_result : Message
  handler_panic decode_tags nil_tag : Message

pub data Error : Type 0 where
  sentinel : Sentinel → Error
  -- The database driver's own errors, and those of a cancelled context.
  driver context_done : Error
  message : Message → Error
  -- `Permanent(err)`
  permanent : Error → Error
  -- `fmt.Errorf("…%w…", err)`
  wrapped : Error → Error

instance abbrev pub error_driver : HasDriver Error
error_driver = record { driver_error = Error.driver }

-- `errors.Is(err, target)`: the chain of wrapped errors is searched.
unfoldable pub errors_is : Error → Sentinel → Bool
errors_is (Error.sentinel s) target = number s == number target
errors_is Error.driver target = false
errors_is Error.context_done target = false
errors_is (Error.message m) target = false
errors_is (Error.permanent e) target = errors_is e target
errors_is (Error.wrapped e) target = errors_is e target

-- `IsPermanent`: some error of the chain is a `permanentError`.
unfoldable pub is_permanent : Error → Bool
is_permanent (Error.sentinel s) = false
is_permanent Error.driver = false
is_permanent Error.context_done = false
is_permanent (Error.message m) = false
is_permanent (Error.permanent e) = true
is_permanent (Error.wrapped e) = is_permanent e
