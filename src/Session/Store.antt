-- ===== src/Session/Store.antt =====
-- The interface SessionStore of session/session_types.go. No implementation of it is in the
-- repository, so its operations are a parameter of the model, and what the proofs need of them is
-- stated by `StoreLaws`.
use goharness.Prelude.{ℕ, ◌≡◌, Bool, true, List, [], ◌∷◌, ◌++◌, Option, some, Text, take}
use goharness.Session.Message.{Message}

pub record SessionInfo : Type 0 where
  pub session_id : Text
  pub agent_name : Text
  pub team_name : Text
  pub sponsor : Text
  pub project_dir : Text

-- Each writing call returns the new state of the store and whether it reported no error. A read
-- returns `none` on an error; `get_cursor` returns the value that the callers use, who drop its error, as they drop that of
-- `save_modify_files`.
pub record SessionStore : Type 1 where
  pub State : Type 0
  pub get : State → Text → Option (List Message)
  pub get_cursor : State → Text → ℕ
  pub get_meta : State → Text → Option SessionInfo
  pub get_modify_files : State → Text → Option (List Text)
  pub append : State → Text → Text → Text → Message → State × Bool
  pub delete : State → ℕ → Text → State × Bool
  pub clear : State → Text → State × Bool
  pub set_cursor : State → Text → ℕ → State × Bool
  pub truncate : State → Text → ℕ → State × Bool
  pub save_modify_files : State → Text → List Text → State

-- What the comments of the interface promise of a call that reports no error.
pub record StoreLaws (st : SessionStore) : Type 0 where
  pub get-append :
      (x : st.State) (id agent sponsor : Text) (m : Message) (ms : List Message)
      → st.get x id ≡ some ms
      → (st.append x id agent sponsor m).1 ≡ true
      → st.get (st.append x id agent sponsor m).0 id ≡ some (ms ++ m ∷ [])
  pub get-clear :
      (x : st.State) (id : Text) → (st.clear x id).1 ≡ true → st.get (st.clear x id).0 id ≡ some []
  pub get-set_cursor :
      (x : st.State) (id : Text) (n : ℕ) → st.get (st.set_cursor x id n).0 id ≡ st.get x id
  pub get-truncate :
      (x : st.State) (id : Text) (n : ℕ) (ms : List Message)
      → st.get x id ≡ some ms
      → (st.truncate x id n).1 ≡ true
      → st.get (st.truncate x id n).0 id ≡ some (take n ms)
