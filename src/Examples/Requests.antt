-- ===== src/Examples/Requests.antt =====
-- src/client.rs and src/check_accounts.rs at a server that knows one trace, one account and one error.
use axelar_relayer_ton.Prelude.{
  ℕ, String, true, false, ◌⊎◌, inl, inr, Option, none, some, List, [], ◌∷◌, ◌≡◌, refl, err, ◌==◌,
  string_eq, ok, if◌then◌else◌, ◌↔◌, arith,
}
use axelar_relayer_ton.Prelude.Int.{pos, negsuc}
use axelar_relayer_ton.Types.{Trace}
use axelar_relayer_ton.Types.Response.{TraceRest, TracesResponseRest, from}
use axelar_relayer_ton.Types.Opcode.{string, number, parse_int, pos_overflow, deserialize_hex_u32}
use axelar_relayer_ton.Types.Opcode.Digits.{deserialize_hex_u32-value}
use axelar_relayer_ton.Client.{
  bad_request, bad_response, Response, Http, TonRpcClient, AccountState, next_lt, endpoint,
  query_params, handle_non_success_response, clean_json_string_full, post_v3_message,
  get_traces_for_account, get_account_states,
}
use axelar_relayer_ton.Client.Cleaning.{
  Readable, AllChars, joined, escaped_null, clean_json_string_full-joined,
}
use axelar_relayer_ton.Client.Answers.{Transcript, Succeeded, get_traces_for_account-Transcript}
use axelar_relayer_ton.Client.Refusals.{Refused, post_v3_message-Refused}
use axelar_relayer_ton.CheckAccounts.{
  account, failed, valid, insufficient_balance, check_account_status, check_accounts,
}
use axelar_relayer_ton.CheckAccounts.Statuses.{Says, check_account_status-Says}
use axelar_relayer_ton.Examples.Traces.{transaction}

-- The map lacks the second of the three keys.
abbrev rest_trace : TraceRest ℕ
rest_trace = record {
  is_incomplete = false;
  start_lt = pos 1;
  end_lt = pos 2;
  trace_id = "trace";
  transactions = λ key.
      if key == "a"
      then some (transaction 1 "a" 9 "call")
      else if key == "c"
      then some (transaction 2 "c" 0x1F "gas")
      else none;
  transactions_order = "a" ∷ "b" ∷ "c" ∷ [];
}

abbrev account_of : String → String → AccountState ℕ
account_of balance status = record {
  address = 7;
  account_state_hash = "hash";
  balance = balance;
  status = status;
}

abbrev responds : ℕ → String → String ⊎ Response
responds status body = inr (record { status = status; body = inr body })

abbrev answer_get : String → String ⊎ Response
answer_get url =
    if url == "https://ton/api/v3/traces" then responds 200 "traces" else responds 200 "accounts"

abbrev server : Http ℕ
server = record {
  post = λ url api_key boc. if boc == "bad" then responds 400 "refused" else responds 500 "broken";
  get = λ url api_key query. answer_get url;
  message_from_str = λ text. inr (record { message_hash = text; message_hash_norm = text });
  error_from_str = λ text. inr (record { code = pos 400; error = text });
  traces_from_str = λ text. inr (record { traces = rest_trace ∷ [] });
  accounts_from_str = λ text. inr (record { accounts = account_of "10" "active" ∷ [] });
  show_status = λ status. "status";
  show_address = λ a. "address";
  show_i64 = λ lt. "lt";
}

abbrev client : TonRpcClient ℕ
client = record { url = "https://ton//"; api_key = "key"; http = server }

clean_json_string_full-joined_example :
    (clean_json_string_full "a\tb" ≡ "a\tb")
    × (clean_json_string_full (joined "a\tb" (joined escaped_null "c\\u0000"))
        ≡ joined "a\tb" (clean_json_string_full "c\\u0000"))
    × AllChars Readable (clean_json_string_full "c\\u0000")
clean_json_string_full-joined_example =
    clean_json_string_full-joined "a\tb" "c\\u0000"
      (inr (inr (inl (omega arith))), (inl refl, (inr (inr (inl (omega arith))), tt))) refl

-- The removal of what reads as an escaped null also takes half of an escaped backslash: the body of a
-- text that holds a backslash and `u0000` is no longer JSON.
breaks_a_text : clean_json_string_full "[\"\\\\u0000\"]" ≡ "[\"\\\"]"
unfolding clean_json_string_full
breaks_a_text = refl

abbrev got : List (Trace ℕ)
got =
    record {
      is_incomplete = false;
      start_lt = pos 1;
      end_lt = pos 2;
      trace_id = "trace";
      transactions = transaction 1 "a" 9 "call" ∷ transaction 2 "c" 0x1F "gas" ∷ [];
    }
    ∷ []

get_traces_for_account-Transcript_example :
    (rest : TracesResponseRest ℕ) × (Succeeded client clean_json_string_full server.traces_from_str
        (server.get
          (endpoint client "/api/v3/traces")
          "key"
          (query_params client (some 1) none (some (pos 5))))
        rest
      × Transcript rest.traces got)
unfolding get_traces_for_account clean_json_string_full from
get_traces_for_account-Transcript_example =
    get_traces_for_account-Transcript client (some 1) none (some (pos 5)) got refl

post_v3_message-Refused_example :
    (post_v3_message client "bad" ≡ err (bad_request "refused"))
    ↔ Refused client (responds 400 "refused") "refused"
post_v3_message-Refused_example = post_v3_message-Refused client "bad" "refused"

other_status : post_v3_message client "good" ≡ err (bad_response "Unexpected status status: broken")
unfolding post_v3_message handle_non_success_response
other_status = refl

-- The query of a poll asks for what is after the height.
query_of_a_poll :
    query_params client (some 1) none (some (pos 5))
    ≡ ("limit", "100") ∷ ("account", "address") ∷ ("start_lt", "lt") ∷ []
query_of_a_poll = refl

after_minus_one : next_lt (negsuc 0) ≡ pos 0
after_minus_one = refl

abbrev parse_u64 : String → Option ℕ
parse_u64 text = if text == "10" then some 10 else none

check_account_status-Says_example :
    (check_account_status parse_u64 (account_of "10" "active") 12 ≡ insufficient_balance 10 12)
    ↔ Says (some 10) "active" 12 (insufficient_balance 10 12)
check_account_status-Says_example =
    check_account_status-Says parse_u64 (account_of "10" "active") 12 (insufficient_balance 10 12)

-- Without `forever` there is one round.
one_round :
    check_accounts parse_u64 (client ∷ client ∷ []) (7 ∷ []) 5 false
    ≡ account (account_of "10" "active") valid ∷ []
unfolding check_accounts check_account_status get_account_states
one_round = refl

-- A request that fails does not end the loop.
goes_on :
    check_accounts parse_u64
      (record client { http = record server { get = λ url api_key query. inl "down" } }
        ∷ client
        ∷ [])
      (7 ∷ [])
      11
      true
    ≡ failed ∷ account (account_of "10" "active") (insufficient_balance 10 11) ∷ []
unfolding check_accounts check_account_status get_account_states
goes_on = refl

deserialize_hex_u32-value_example :
    (deserialize_hex_u32 (some (string "1f")) ≡ ok (some 0x1F))
    × (deserialize_hex_u32 (some (string "0x1f")) ≡ ok (some 0x1F))
deserialize_hex_u32-value_example = deserialize_hex_u32-value "1f" 1 (15 ∷ []) (refl, (refl, tt))

-- The first number past the range is an error as a text, and is cut down as a number.
past_the_range :
    (deserialize_hex_u32 (some (string "0x100000009")) ≡ err (parse_int pos_overflow))
    × (deserialize_hex_u32 (some (number (some 0x100000009))) ≡ ok (some 9))
unfolding deserialize_hex_u32
past_the_range = (refl, refl)
