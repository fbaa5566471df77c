-- ===== src/Reply/Tests.antt =====
-- An ARP request and its reply, and a ping.
use l4_loadbalancer.Base.{ℕ, ◌%◌, ◌/◌, ◌≡◌, refl, true, [], ◌∷◌, some, arith}
use l4_loadbalancer.Checksum.{calculate}
use l4_loadbalancer.Reply.Answers.{IsAnswer, make_reply-IsAnswer, handle_echo_request-verifies}
use l4_loadbalancer.Reply.{
  make_reply, build_request, build_gratuitous, handle_echo_request, is_request,
}
use l4_loadbalancer.Types.{MacAddr}

abbrev asker : MacAddr
asker = 2 ∷ 0 ∷ 0 ∷ 0 ∷ 0 ∷ 1 ∷ []

abbrev owner : MacAddr
owner = 2 ∷ 0 ∷ 0 ∷ 0 ∷ 0 ∷ 2 ∷ []

gratuitous_request : is_request (build_gratuitous 7 owner).1 ≡ true
unfolding build_gratuitous is_request
gratuitous_request = refl

make_reply-IsAnswer_example :
    IsAnswer asker 5 7 owner
      (make_reply (build_request 7 5 asker).0 (build_request 7 5 asker).1 owner)
make_reply-IsAnswer_example = make_reply-IsAnswer 7 5 asker owner

handle_echo_request-verifies_example :
    (c : ℕ) × (handle_echo_request (8 ∷ 0 ∷ 0xf7 ∷ 0xfd ∷ 0 ∷ 1 ∷ 0 ∷ 1 ∷ [])
      ≡ some (0 ∷ 0 ∷ c % 256 ∷ c / 256 ∷ 0 ∷ 1 ∷ 0 ∷ 1 ∷ []))
    × (calculate (0 ∷ 0 ∷ c % 256 ∷ c / 256 ∷ 0 ∷ 1 ∷ 0 ∷ 1 ∷ []) ≡ 0)
handle_echo_request-verifies_example =
    handle_echo_request-verifies 0 0xf7 0xfd (0 ∷ 1 ∷ 0 ∷ 1 ∷ []) (omega arith) (omega arith)
