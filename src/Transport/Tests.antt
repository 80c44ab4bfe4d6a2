-- ===== src/Transport/Tests.antt =====
-- The theorems about the transports at concrete inputs.
use vnano_msg.Common.{
  ◌^◌, abort, ℕ, List, ok, err, enobufs, ◌≡◌, refl, ◌++◌, length, none, [], ◌∷◌, true, ◌↔◌, ◌≤◌,
  done, arith,
}
use vnano_msg.Core.Pipes.{Msg}
use vnano_msg.Transport.Msgqueue.{Msgqueue, init, send, recv, term}
use vnano_msg.Transport.Backoff
use vnano_msg.Transport.Backoff.{Backoff}
use vnano_msg.Aio.Timer
use vnano_msg.Transport.Base64
use vnano_msg.Transport.Base64.{encode, decode}
use vnano_msg.Transport.Base64.RoundTrip.{encoded_length, written_at, wrote, decode-encode}
use vnano_msg.Transport.Port.{resolve}
use vnano_msg.Transport.Port.Decimal.{all_digits, value, resolve_iff}
use vnano_msg.Transport.Msgqueue.Fifo.{Holds, init-Holds}
use vnano_msg.Transport.Msgqueue.Refine.{offer, poll, send_offers, recv_polls, term_completes}

abbrev two_bytes : Msg
two_bytes = record { sphdr = 1 ∷ []; hdrs = []; body = 2 ∷ [] }

-- Ten bytes at most.
abbrev fresh : Msgqueue
fresh = init 10 (λ c i. record { sphdr = []; hdrs = []; body = [] }) (λ c. none)

fresh-Holds : Holds fresh []
fresh-Holds = init-Holds 10 _ _

send_offers_example :
    ((send fresh two_bytes).0 ≡ (offer 10 [] two_bytes).0)
    × Holds ((send fresh two_bytes).1) ((offer 10 [] two_bytes).1)
unfolding init
send_offers_example = send_offers fresh [] two_bytes fresh-Holds (omega arith) (omega arith)

one-Holds : Holds ((send fresh two_bytes).1) (two_bytes ∷ [])
unfolding init send
one-Holds = (send_offers fresh [] two_bytes fresh-Holds (omega arith) (omega arith)).1

recv_polls_example :
    (q : Msgqueue) × (recv ((send fresh two_bytes).1) ≡ done ((poll (two_bytes ∷ [])).0, q))
    × Holds q ((poll (two_bytes ∷ [])).1)
recv_polls_example = recv_polls ((send fresh two_bytes).1) (two_bytes ∷ []) one-Holds

term_completes_example : term ((send fresh two_bytes).1) ≡ done tt
term_completes_example = term_completes ((send fresh two_bytes).1) (two_bytes ∷ []) one-Holds

-- "80"
resolve_iff_example :
    (resolve (56 ∷ 48 ∷ []) ≡ ok 80)
    ↔ ((all_digits (56 ∷ 48 ∷ []) ≡ true) × (value 0 (56 ∷ 48 ∷ []) ≡ 80) × (1 ≤ 80) × (80 ≤ 65535))
resolve_iff_example = resolve_iff (56 ∷ 48 ∷ []) 80

-- "Many", which is "TWFueQ==" in the code
abbrev many : List ℕ
many = 77 ∷ 97 ∷ 110 ∷ 121 ∷ []

abbrev many_encoded : List ℕ
many_encoded = 84 ∷ 87 ∷ 70 ∷ 117 ∷ 101 ∷ 81 ∷ 61 ∷ 61 ∷ []

encode-many : encode many 9 ≡ wrote 0 (many_encoded ++ 0 ∷ []) 8
unfolding encode Base64.encode_loop Base64.digits Base64.in_byte Base64.encode_rest Base64.pad
    Base64.character Base64.next_index
encode-many = refl

decode-many : decode many_encoded 4 ≡ wrote 0 many 4
unfolding decode Base64.decode_loop Base64.in_digit Base64.decode_rest Base64.symbol
    Base64.next_index
decode-many = refl

decode-encode_example :
    (chars : List ℕ) × (encode many 9 ≡ wrote 0 (chars ++ 0 ∷ []) (length chars))
    × (decode chars 4 ≡ wrote 0 many 4)
    × (length chars ≡ encoded_length 4)
decode-encode_example =
    decode-encode many 9 4 (omega arith) (omega arith) (omega arith) (omega arith)

-- Eight characters and a NUL do not fit: the call fails with the buffer full.
encode-short : encode many 8 ≡ record { writes = written_at 0 many_encoded; rc = err enobufs }
unfolding encode Base64.encode_loop Base64.digits Base64.in_byte Base64.encode_rest Base64.pad
    Base64.character Base64.next_index
encode-short = refl

-- With an interval of 0, `n` doubles at each start.
abbrev tried : Backoff
tried = record { timer = Timer.init; minivl = 0; maxivl = 0; n = 2 ^ 30 }

start_overflows : Backoff.start tried ≡ abort
unfolding Backoff.start Backoff.as_int
start_overflows = refl
