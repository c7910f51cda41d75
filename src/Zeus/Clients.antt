-- ===== src/Zeus/Clients.antt =====
-- What clients with any methods and any credentials are answered.
use rvg_sever.Prelude.{
  ℕ, ◌+◌, ◌<◌, ◌≡◌, refl, arith, ltb, ◌==◌, Bool, true, false, [], ◌∷◌, ◌++◌, length, ◌&&◌, not,
  if◌then◌else◌,
}
use rvg_sever.Wire.{Bytes, be16}
use rvg_sever.Wire.Numbers.{length-be16, from_be-be16}
use rvg_sever.Wire.Cursor.{read_exact-append}
use rvg_sever.Wire.Text.{Text, dotted, utf8_ignore}
use rvg_sever.Wire.Strings.{same_text}
use rvg_sever.Header.{Host, ipv4, domain, ipv6, IsWellFormed, host_bytes, host_tag}
use rvg_sever.Zeus.{
  Server, refusal, hang_up, relay, silent, say, any_is, connect, with_port, named, destination,
  request, judge, read_password, read_name, choose, greet, converse,
}

-- The greeting, the credentials, and the request of a client.
abbrev pub greeting : Bytes → Bytes → Bytes
greeting methods rest = (5 ∷ length methods ∷ []) ++ (methods ++ rest)

abbrev pub credentials : Bytes → Bytes → Bytes → Bytes
credentials uname passwd rest =
    (1 ∷ length uname ∷ []) ++ (uname ++ ((length passwd ∷ []) ++ (passwd ++ rest)))

abbrev pub connect_request : Host → ℕ → Bytes → Bytes
connect_request h port rest =
    (5 ∷ 1 ∷ 0 ∷ host_tag 3 4 h ∷ []) ++ (host_bytes h ++ (be16 port ++ rest))

-- How often a byte stands in a list.
pub count_of : ℕ → Bytes → ℕ
count_of n [] = 0
count_of n (b ∷ bs) = (if b == n then 1 else 0) + count_of n bs

any_is-count_of : (n : ℕ) (bs : Bytes) → any_is n bs ≡ ltb 0 (count_of n bs)
unfolding count_of
any_is-count_of n [] = refl
any_is-count_of n (b ∷ bs) = ground (arith, any_is-count_of n bs)

module _ (s : Server) where
  -- The text of a destination.
  abbrev pub name_of : Host → Text
  name_of (ipv4 bs) = dotted bs
  name_of (domain bs) = utf8_ignore bs
  name_of (ipv6 bs) = s.ipv6_name bs

  with_port-be16 :
      (address : Text) (port : ℕ) (rest : Bytes)
      → port < 65536
      → with_port s address (be16 port ++ rest) ≡ connect s address port rest
  unfolding with_port
  with_port-be16 address port rest fits =
      rw (read_exact-append 2 (be16 port) rest (length-be16 port), from_be-be16 port fits)

  destination-host :
      (h : Host) (port : ℕ) (rest : Bytes)
      → IsWellFormed h
      → port < 65536
      → destination s (host_tag 3 4 h) (host_bytes h ++ (be16 port ++ rest))
        ≡ connect s (name_of h) port rest
  unfolding destination named
  destination-host (ipv4 bs) port rest wf fits =
      rw (read_exact-append 4 bs (be16 port ++ rest) wf, with_port-be16 (dotted bs) port rest fits)
  destination-host (domain bs) port rest wf fits = rw (
    read_exact-append 1 (length bs ∷ []) (bs ++ (be16 port ++ rest)) refl,
    read_exact-append (length bs) bs (be16 port ++ rest) refl,
    with_port-be16 (utf8_ignore bs) port rest fits,
  )
  destination-host (ipv6 bs) port rest wf fits = rw (
    read_exact-append 16 bs (be16 port ++ rest) wf,
    with_port-be16 (s.ipv6_name bs) port rest fits,
  )

  -- What a client with the tests' answers gets, from its last reply back.
  spread :
      (offers knows reaches : Bool) (address : Text) (port : ℕ) (rest : Bytes)
      → (if not offers
          then say (5 ∷ 255 ∷ []) silent
          else say (5 ∷ 2 ∷ []) (
              if knows
              then say (1 ∷ 0 ∷ []) (
                  if reaches
                  then say (refusal 0) (record { replies = []; outcome = relay address port rest })
                  else say (refusal 5) silent)
              else say (1 ∷ 1 ∷ []) silent))
        ≡ (if offers
            then (if knows
                then (if reaches
                    then record {
                      replies =
                          (5 ∷ 2 ∷ [])
                          ∷ (1 ∷ 0 ∷ [])
                          ∷ (5 ∷ 0 ∷ 0 ∷ 1 ∷ 0 ∷ 0 ∷ 0 ∷ 0 ∷ 0 ∷ 0 ∷ [])
                          ∷ [];
                      outcome = relay address port rest;
                    }
                    else record {
                      replies =
                          (5 ∷ 2 ∷ [])
                          ∷ (1 ∷ 0 ∷ [])
                          ∷ (5 ∷ 5 ∷ 0 ∷ 1 ∷ 0 ∷ 0 ∷ 0 ∷ 0 ∷ 0 ∷ 0 ∷ [])
                          ∷ [];
                      outcome = hang_up;
                    })
                else record { replies = (5 ∷ 2 ∷ []) ∷ (1 ∷ 1 ∷ []) ∷ []; outcome = hang_up })
            else record { replies = (5 ∷ 255 ∷ []) ∷ []; outcome = hang_up })
  spread false knows reaches address port rest = refl
  spread true false reaches address port rest = refl
  spread true true false address port rest = refl
  spread true true true address port rest = refl

  -- The whole conversation of a client with any methods, any credentials and any well-formed
  -- destination with a port below 65536. Where 2 is
  -- not among the methods, it gets 5, 255 and is closed. With another name or password it gets 5, 2 and
  -- 1, 1 and is closed. Otherwise it gets 5, 2 and 1, 0; then, where its destination is not reached, the
  -- reply with code 5, and is closed; where it is, the reply with code 0, and what it sends behind its
  -- request is relayed to the host and the port that it named.
  pub converse_lem :
      (methods uname passwd : Bytes) (h : Host) (port : ℕ) (rest : Bytes)
      → IsWellFormed h
      → port < 65536
      → converse s (greeting methods (credentials uname passwd (connect_request h port rest))) ≡ (
          if ltb 0 (count_of 2 methods)
          then (if same_text (utf8_ignore uname) s.user && same_text (utf8_ignore passwd) s.password
              then (if s.reaches (name_of h) port
                  then record {
                    replies =
                        (5 ∷ 2 ∷ [])
                        ∷ (1 ∷ 0 ∷ [])
                        ∷ (5 ∷ 0 ∷ 0 ∷ 1 ∷ 0 ∷ 0 ∷ 0 ∷ 0 ∷ 0 ∷ 0 ∷ [])
                        ∷ [];
                    outcome = relay (name_of h) port rest;
                  }
                  else record {
                    replies =
                        (5 ∷ 2 ∷ [])
                        ∷ (1 ∷ 0 ∷ [])
                        ∷ (5 ∷ 5 ∷ 0 ∷ 1 ∷ 0 ∷ 0 ∷ 0 ∷ 0 ∷ 0 ∷ 0 ∷ [])
                        ∷ [];
                    outcome = hang_up;
                  })
              else record { replies = (5 ∷ 2 ∷ []) ∷ (1 ∷ 1 ∷ []) ∷ []; outcome = hang_up })
          else record { replies = (5 ∷ 255 ∷ []) ∷ []; outcome = hang_up })
  unfolding converse greet choose read_name read_password judge request connect
  converse_lem methods uname passwd h port rest wf fits =
      let wanted = host_bytes h ++ (be16 port ++ rest) in
      let asked = connect_request h port rest in
      let after_name = (length passwd ∷ []) ++ (passwd ++ asked) in
      let sent = credentials uname passwd asked in
      rw
        (
          read_exact-append 2 (5 ∷ length methods ∷ []) (methods ++ sent) refl,
          read_exact-append (length methods) methods sent refl,
          read_exact-append 2 (1 ∷ length uname ∷ []) (uname ++ after_name) refl,
          read_exact-append (length uname) uname after_name refl,
          read_exact-append 1 (length passwd ∷ []) (passwd ++ asked) refl,
          read_exact-append (length passwd) passwd asked refl,
          read_exact-append 4 (5 ∷ 1 ∷ 0 ∷ host_tag 3 4 h ∷ []) wanted refl,
          destination-host h port rest wf fits,
          any_is-count_of 2 methods,
        )
        (spread (ltb 0 (count_of 2 methods))
          (same_text (utf8_ignore uname) s.user && same_text (utf8_ignore passwd) s.password)
          (s.reaches (name_of h) port) (name_of h) port rest)
