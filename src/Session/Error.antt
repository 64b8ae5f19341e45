-- ===== src/Session/Error.antt =====
-- The errors that the methods of Session return, one constructor for each message.
use goharness.Prelude.{ℕ}

pub data Error : Type 0 where
  persist_failed delete_failed clear_failed cursor_failed truncate_failed : Error
  negative_keep_count cursor_out_of_range not_a_user_message : Error
  message_not_found : ℕ → Error
