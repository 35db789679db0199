-- ===== src/Tests/Signals.antt =====
-- The servers of src/05_ftp and src/02_async at a signal.
use boost_asio.Common.{◌≡◌, refl, true, false, none, some, if◌then◌else◌}
use boost_asio.Map.{find, assign, erase, nat_eq}
use boost_asio.Memory.{memcpy, peek, poke}
use boost_asio.Wire.Host.{load16}
use boost_asio.Wire.Machines.{little_endian}
use boost_asio.Async.Wire.{Outcome, ok, throws, fault, msg_node, new_chars, terminate, clear}
use boost_asio.Async.Session.{
  new_session, start, clear_head, clear_msg, received, resume_at, on_head, on_msg, prase_head,
  prase_msg, await_msg, deref, exceeds, post_msg_to_que, remove_session,
}
use boost_asio.Async.Session.Reading.{head}
use boost_asio.Async.Pool.{new_pool, get_io_service}
use boost_asio.Async.Server.{
  Server, listening, new_server, start_accept, save_session, handler_accept, resume, on_signal,
}
use boost_asio.Async.Server.Contexts.{Reaches, starts, accepts, resumes}
use boost_asio.Async.Server.Signal.{names, any_stray, ended, on_signal-any_stray}
use boost_asio.Tests.Machine.{hi}

abbrev server_of : Outcome Server → Server
server_of (ok srv) = srv
server_of throws = listening 0
server_of fault = listening 0

-- A session that has taken a message gets a header with an id above MAX_ID.
abbrev first : Server
first = server_of (new_server little_endian 2 7)

abbrev serving : Server
serving = server_of (handler_accept little_endian 8 false true first)

abbrev read_head : Server
read_head = server_of (resume little_endian 7 (received (head 1001 2)) serving)

abbrev read_msg : Server
read_msg = server_of (resume little_endian 7 (received hi) read_head)

abbrev rejected : Server
rejected = server_of (resume little_endian 7 (received (head 10241 2)) read_msg)

rejected-Reaches : Reaches little_endian 2 rejected
unfolding new_server start_accept listening new_pool get_io_service new_session msg_node new_chars
    handler_accept save_session start clear_head clear_msg clear resume resume_at on_head on_msg
    prase_head prase_msg await_msg deref exceeds terminate post_msg_to_que remove_session find
    assign erase memcpy peek poke load16
rejected-Reaches =
    resumes 7 (received (head 10241 2))
      (resumes 7 (received hi)
        (resumes 7 (received (head 1001 2)) (accepts 8 false true (starts 7 refl) refl) refl) refl)
      refl

on_signal-any_stray_example :
    on_signal rejected
    ≡ (if any_stray rejected.world.sessions rejected.objects then none else some (ended 2 rejected))
on_signal-any_stray_example = on_signal-any_stray little_endian 2 rejected rejected-Reaches

-- The handler does not return.
never_returns : on_signal rejected ≡ none
unfolding any_stray names new_server start_accept listening new_pool get_io_service new_session
    msg_node new_chars handler_accept save_session start clear_head clear_msg clear resume resume_at
    on_head on_msg prase_head prase_msg await_msg deref exceeds terminate post_msg_to_que
    remove_session find assign erase memcpy peek poke load16
never_returns = on_signal-any_stray little_endian 2 rejected rejected-Reaches
