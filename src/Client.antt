-- ===== src/Client.antt =====
-- src/client.rs: the three requests to the TON API. The HTTP client gives an answer to a request, or
-- fails; serde_json reads a body; both are inputs.
use axelar_relayer_ton.Prelude.{
  ℕ, suc, zero, ◌+◌, ◌-◌, ◌^◌, String, Bool, true, false, not, ◌&&◌, ◌||◌, ◌⊎◌, inl, inr, Option,
  none, some, List, [], ◌∷◌, ◌++◌, map, Outcome, ok, err, panic, ◌>>=◌, map_err, ◌==◌, string_eq,
  nat_eq, eqb, ltb, leb, if◌then◌else◌,
}
use Prim.Native.Char.{Char, code}
use axelar_relayer_ton.Prelude.Int.{ℤ, pos, negsuc}
use axelar_relayer_ton.Types.{Trace, append, lift_err}
use axelar_relayer_ton.Types.Response.{TracesResponseRest, from}
pub mod Cleaning
pub mod Answers
pub mod Refusals

-- relayer_core::error::ClientError
pub data ClientError : Type 0 where
  bad_request bad_response connection_failed : String → ClientError

pub record V3MessageResponse : Type 0 where
  pub message_hash : String
  pub message_hash_norm : String

pub record V3ErrorResponse : Type 0 where
  pub code : ℤ  -- i32
  pub error : String

pub record AccountState (A : Type 0) : Type 0 where
  pub address : A
  pub account_state_hash : String
  pub balance : String
  pub status : String

pub record AccountStatesResponse (A : Type 0) : Type 0 where
  pub accounts : List (AccountState A)

-- A response: its status, and its body as text, invalid UTF-8 replaced, or why it could not be read.
pub record Response : Type 0 where
  pub status : ℕ
  pub body : String ⊎ String

abbrev pub Query : Type 0
Query = List (String × String)

-- reqwest, and serde_json at the types that the file reads.
pub record Http (A : Type 0) : Type 0 where
  pub post : (url api_key : String) → (boc : String) → String ⊎ Response
  pub get : (url api_key : String) → Query → String ⊎ Response
  pub message_from_str : String → String ⊎ V3MessageResponse
  pub error_from_str : String → String ⊎ V3ErrorResponse
  pub traces_from_str : String → String ⊎ TracesResponseRest A
  pub accounts_from_str : String → String ⊎ AccountStatesResponse A
  pub show_status : ℕ → String
  pub show_address : A → String
  pub show_i64 : ℤ → String

-- `char::is_control`
abbrev pub is_control : Char → Bool
is_control c = ltb (code c) 0x20 || (leb 0x7F (code c) && ltb (code c) 0xA0)

abbrev pub is_kept : Char → Bool
is_kept c = not (is_control c) || eqb (code c) 10 || eqb (code c) 9

abbrev pub has_prefix : String → String → Bool
has_prefix s String.[] = true
has_prefix String.[] (String.◌∷◌ d t) = false
has_prefix (String.◌∷◌ c s) (String.◌∷◌ d t) = eqb (code c) (code d) && has_prefix s t

-- `replace("\\u0000", "")`: what is found is skipped, and the search goes on after it.
abbrev pub replace_nulls : (skip : ℕ) → String → String
replace_nulls skip String.[] = String.[]
replace_nulls zero (String.◌∷◌ c s) =
    let skipped = replace_nulls 5 s in
    let kept = replace_nulls 0 s in
    if has_prefix (String.◌∷◌ c s) "\\u0000" then skipped else String.◌∷◌ c kept
replace_nulls (suc skip) (String.◌∷◌ c s) = replace_nulls skip s

abbrev pub filter_chars : (Char → Bool) → String → String
filter_chars p String.[] = String.[]
filter_chars p (String.◌∷◌ c s) =
    let rest = filter_chars p s in if p c then String.◌∷◌ c rest else rest

unfoldable pub clean_json_string_full : String → String
clean_json_string_full json_str = filter_chars is_kept (replace_nulls 0 json_str)

-- `trim_end_matches('/')`
abbrev pub trim_end_slashes : String → String
trim_end_slashes String.[] = String.[]
trim_end_slashes (String.◌∷◌ c s) =
    let rest = trim_end_slashes s in
    if rest == "" && eqb (code c) 0x2F then "" else String.◌∷◌ c rest

abbrev pub is_success : ℕ → Bool
is_success status = leb 200 status && ltb status 300

-- `lt + 1`, with the wrap-around of a release build
abbrev pub next_lt : ℤ → ℤ
next_lt (pos n) = if n == 2 ^ 63 - 1 then negsuc (2 ^ 63 - 1) else pos (n + 1)
next_lt (negsuc zero) = pos 0
next_lt (negsuc (suc n)) = negsuc n

pub record TonRpcClient (A : Type 0) : Type 0 where
  pub url : String
  pub api_key : String
  pub http : Http A

abbrev pub bad_request_body : String ⊎ V3ErrorResponse → ClientError
bad_request_body (inr err_body) = bad_request err_body.error
bad_request_body (inl e) = bad_response (append "Invalid 400 body: " e)

abbrev pub as_is : String → String
as_is text = text

abbrev pub trace_id_params : Option (List String) → Query
trace_id_params none = []
trace_id_params (some trace_ids) = map (λ t. ("trace_id", t)) trace_ids

module _ {A : Type 0} where
  unfoldable pub handle_non_success_response :
      TonRpcClient A → (status : ℕ) → (text : String) → ClientError
  handle_non_success_response self status text =
      if status == 400
      then bad_request_body (self.http.error_from_str text)
      else bad_response
          (append "Unexpected status " (append (self.http.show_status status) (append ": " text)))

  -- The end of each request: the body is cleaned, and read as a `B` if the status is a success.
  abbrev pub read :
      {B : Type 0}
      → TonRpcClient A
      → (clean : String → String) → (what : String) → (String → String ⊎ B)
      → Response
      → Outcome ClientError B
  read self clean what from_str response = do
    text ← lift_err bad_response response.body
    (if is_success response.status
        then lift_err (λ e. bad_response (append what e)) (from_str (clean text))
        else err (handle_non_success_response self response.status (clean text)))

  abbrev pub endpoint : TonRpcClient A → String → String
  endpoint self path = append (trim_end_slashes self.url) path

  unfoldable pub post_v3_message :
      TonRpcClient A → (boc : String) → Outcome ClientError V3MessageResponse
  post_v3_message self boc = do
    response ←
        lift_err connection_failed
          (self.http.post (endpoint self "/api/v3/message") self.api_key boc)
    read self as_is "Failed to parse success response: " self.http.message_from_str response

  abbrev pub account_param : TonRpcClient A → Option A → Query
  account_param self none = []
  account_param self (some account) = ("account", self.http.show_address account) ∷ []

  abbrev pub start_lt_param : TonRpcClient A → Option ℤ → Query
  start_lt_param self none = []
  start_lt_param self (some lt_min_val) = ("start_lt", self.http.show_i64 (next_lt lt_min_val)) ∷ []

  abbrev pub query_params : TonRpcClient A → Option A → Option (List String) → Option ℤ → Query
  query_params self account trace_ids start_lt =
      ("limit", "100")
      ∷ (account_param self account ++ trace_id_params trace_ids ++ start_lt_param self start_lt)

  unfoldable pub get_traces_for_account :
      TonRpcClient A
      → (account : Option A) → (trace_ids : Option (List String)) → (start_lt : Option ℤ)
      → Outcome ClientError (List (Trace A))
  unfolding clean_json_string_full from
  get_traces_for_account self account trace_ids start_lt = do
    response ← lift_err connection_failed (
        self.http.get (endpoint self "/api/v3/traces") self.api_key
          (query_params self account trace_ids start_lt))
    rest ←
        read self clean_json_string_full "Failed to parse traces list: " self.http.traces_from_str
          response
    ok (from rest).traces

  abbrev pub address_params : TonRpcClient A → List A → Query
  address_params self addresses =
      map (λ address. ("address", self.http.show_address address)) addresses

  unfoldable pub get_account_states :
      TonRpcClient A → (addresses : List A) → Outcome ClientError (List (AccountState A))
  get_account_states self addresses = do
    response ← lift_err connection_failed (
        self.http.get (endpoint self "/api/v3/accountStates") self.api_key
          (("include_boc", "false") ∷ address_params self addresses))
    res ← read self as_is "Failed to parse account states: " self.http.accounts_from_str response
    ok res.accounts
