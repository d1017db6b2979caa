-- ===== src/Media/Ledger/Calls.antt =====
-- The count of descriptors and what holds them, over any sequence of calls on a client, its streams
-- and its frames.
use neoruntime_sdks.Base.{ℕ, refl, List, Option}
use neoruntime_sdks.Media.{Peer}
use neoruntime_sdks.Media.Pixels.{Platform}
use neoruntime_sdks.Media.Handles.{retained_frames}
use neoruntime_sdks.Media.Ledger.{
  BalancedAt, IsBalanced, close_handle-BalancedAt, drop_copy-BalancedAt, copy_handle-BalancedAt,
}
use neoruntime_sdks.Media.Ledger.Socks.{get_sock-BalancedAt, drop_sock-BalancedAt, close-BalancedAt}
use neoruntime_sdks.Media.Ledger.Frames.{recv_frame-BalancedAt, set_recv_timeout-BalancedAt}
use neoruntime_sdks.Media.Ledger.Tidy.{
  IsTidy, close_handle-IsTidy, copy_handle-IsTidy, drop_copy-IsTidy,
}
use neoruntime_sdks.Media.Ledger.Tidy.Socks.{get_sock-IsTidy}
use neoruntime_sdks.Media.Ledger.Tidy.Shut.{drop_sock-IsTidy, close-IsTidy}
use neoruntime_sdks.Media.Ledger.Tidy.Frames.{recv_frame-IsTidy}
use neoruntime_sdks.Media.Ledger.Uses.{Keeps, new_client, Use, perform_all, perform_all-Kept}

BalancedAt-Keeps : (f : ℕ) → Keeps (BalancedAt f)
unfolding retained_frames
BalancedAt-Keeps f = record {
  sleeps = λ c b. b;
  gets_sock = get_sock-BalancedAt f;
  drops_sock = drop_sock-BalancedAt f;
  sets_timeout = set_recv_timeout-BalancedAt f;
  receives = recv_frame-BalancedAt f;
  closes_handle = close_handle-BalancedAt f;
  copies_handle = copy_handle-BalancedAt f;
  drops_copy = drop_copy-BalancedAt f;
  counts_retained = λ c b. b;
  closes_client = close-BalancedAt f;
}

IsTidy-Keeps : Keeps IsTidy
unfolding retained_frames
IsTidy-Keeps = record {
  sleeps = λ c t. t;
  gets_sock = get_sock-IsTidy;
  drops_sock = drop_sock-IsTidy;
  sets_timeout = λ i ms c t. t;
  receives = recv_frame-IsTidy;
  closes_handle = close_handle-IsTidy;
  copies_handle = copy_handle-IsTidy;
  drops_copy = drop_copy-IsTidy;
  counts_retained = λ c t. t;
  closes_client = close-IsTidy;
}

-- After any calls of a new client's user, in any order and with any answers of the daemons and the kernel,
-- each descriptor, of a socket or of a plane, has come in as often as it has been closed, plus once for
-- each open handle and each socket that holds it; and each handle that is open still has a shared
-- pointer to it, each socket that is alive is the one that the client has for a stream, and each socket that is
-- not alive has no descriptor. So none leaks.
pub perform_all-IsBalanced :
    (os : Platform) (us : List Use) (peers : List (Option Peer))
    → IsBalanced (perform_all os us (new_client peers))
      × IsTidy (perform_all os us (new_client peers))
unfolding IsBalanced new_client
perform_all-IsBalanced os us peers = (
  λ f. perform_all-Kept (BalancedAt f) (BalancedAt-Keeps f) os us (new_client peers) refl,
  perform_all-Kept IsTidy IsTidy-Keeps os us (new_client peers) (tt, (tt, λ i s e live. absurd cc)),
)
