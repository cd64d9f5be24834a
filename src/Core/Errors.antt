-- ===== src/Core/Errors.antt =====
-- src/core/exceptions.py, the exceptions.py of every modelled domain, and src/core/exception_handlers.py
use kupio_backend.Base.{ℕ}

-- What a request may raise. From `integrity_error` on they are no `DomainError`: the database refuses
-- a row, a query for at most one row finds more, a method is called on None, and Python's own.
pub data Error : Type 0 where
  invalid_token invalid_token_payload insufficient_permissions : Error
  invalid_credentials invalid_google_token invalid_refresh_token session_not_found : Error
  email_already_taken username_already_taken : Error
  new_password_must_differ invalid_current_password password_already_set : Error
  user_not_found user_phone_conflict user_username_conflict username_already_set : Error
  listing_not_found listing_ownership : Error
  insufficient_balance webhook_signature : Error
  promotion_packet_not_found promotion_packet_inactive listing_not_promotable : Error
  duplicate_active_promotion listing_promotion_not_found : Error
  report_reason_not_found listing_report_not_found duplicate_report_reason_slug : Error
  reserved_other_reason_slug other_reason_cannot_be_deactivated report_reason_inactive : Error
  custom_reason_details_required cannot_report_own_listing : Error
  duplicate_pending_listing_report listing_report_already_resolved : Error
  category_not_found invalid_parent_provided circular_category_reference : Error
  listing_already_favourited listing_not_in_favourites cannot_favourite_own_listing : Error
  conversation_not_found message_not_found not_conversation_participant : Error
  cannot_message_own_listing message_not_owned : Error
  filter_definition_not_found duplicate_filter_slug invalid_custom_filters : Error
  integrity_error multiple_results_found attribute_error : Error
  type_error value_error overflow_error index_error : Error

-- The status of the response that `handle_domain_error` builds; 500 for what it does not handle.
pub status_code : Error → ℕ
status_code invalid_token = 401
status_code invalid_token_payload = 401
status_code insufficient_permissions = 403
status_code invalid_credentials = 401
status_code invalid_google_token = 401
status_code invalid_refresh_token = 401
status_code session_not_found = 404
status_code email_already_taken = 409
status_code username_already_taken = 409
status_code new_password_must_differ = 400
status_code invalid_current_password = 401
status_code password_already_set = 409
status_code user_not_found = 404
status_code user_phone_conflict = 409
status_code user_username_conflict = 409
status_code username_already_set = 400
status_code listing_not_found = 404
status_code listing_ownership = 403
status_code insufficient_balance = 400
status_code webhook_signature = 400
status_code promotion_packet_not_found = 404
status_code promotion_packet_inactive = 400
status_code listing_not_promotable = 400
status_code duplicate_active_promotion = 409
status_code listing_promotion_not_found = 404
status_code report_reason_not_found = 404
status_code listing_report_not_found = 404
status_code duplicate_report_reason_slug = 409
status_code reserved_other_reason_slug = 409
status_code other_reason_cannot_be_deactivated = 400
status_code report_reason_inactive = 400
status_code custom_reason_details_required = 400
status_code cannot_report_own_listing = 403
status_code duplicate_pending_listing_report = 409
status_code listing_report_already_resolved = 409
status_code category_not_found = 404
status_code invalid_parent_provided = 404
status_code circular_category_reference = 400
status_code listing_already_favourited = 409
status_code listing_not_in_favourites = 404
status_code cannot_favourite_own_listing = 403
status_code conversation_not_found = 404
status_code message_not_found = 404
status_code not_conversation_participant = 403
status_code cannot_message_own_listing = 400
status_code message_not_owned = 403
status_code filter_definition_not_found = 404
status_code duplicate_filter_slug = 409
status_code invalid_custom_filters = 400
status_code integrity_error = 500
status_code multiple_results_found = 500
status_code attribute_error = 500
status_code type_error = 500
status_code value_error = 500
status_code overflow_error = 500
status_code index_error = 500
