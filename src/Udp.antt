-- ===== src/Udp.antt =====
-- src/udp.h and src/udp.c: the socket that a request goes out of, and that its answer comes back to.
-- The answers of socket, setsockopt, sendto and recvfrom are arguments.
use nose.Common.{ℕ, ◌%◌, ◌^◌, Bool, if◌then◌else◌, Option, none, some, List, take}
use nose.Common.Words.{htons}
use nose.Pmp.{Inet}

pub record UdpHandler : Type 0 where
  pub sockfd : ℕ
  pub sin_addr : ℕ
  pub sin_port : ℕ

-- none is a negative result, with the handler as it was; a socket that was opened is not closed then.
unfoldable pub send_udp_pkt :
    Inet → Option ℕ → Bool → (ℕ → ℕ → List ℕ → Bool) → List ℕ → ℕ → List ℕ → Option UdpHandler
send_udp_pkt net none setsockopt sendto dst_host port buf = none
send_udp_pkt net (some sockfd) setsockopt sendto dst_host port buf =
    let addr = net.inet_addr dst_host in
    let sin_port = htons (port % 2 ^ 16) in
    if setsockopt
    then (if sendto addr sin_port buf
        then some (record { sockfd = sockfd; sin_addr = addr; sin_port = sin_port })
        else none)
    else none

-- What `recvfrom` brings to the socket, BUFSIZ bytes at most.
unfoldable pub recv_udp_pkt : (ℕ → Option (List ℕ)) → UdpHandler → Option (List ℕ)
recv_udp_pkt recvfrom handler = elim (recvfrom handler.sockfd) [
  | none ↦ none
  | some bytes ↦ some (take 8192 bytes)
]
