-- ===== src/Realtime/Tests.antt =====
-- Runs of the socket handlers, and their theorem at a concrete input.
use task_scheduling_platform.Base.{◌≡◌, refl, none, some, [], ◌∷◌}
use task_scheduling_platform.Platform.Io.{user_room, workspace_room}
use task_scheduling_platform.Realtime.Sockets.{
  Handshake, Socket, handle_connection, handle_join_workspace,
}
use task_scheduling_platform.Realtime.Rooms.{
  new_socket, connected, joined, IsVerified, Reached-IsVerified,
}
use task_scheduling_platform.Sample.World.{sample}

abbrev handshake : Handshake
handshake = record { bearer = none; query_token = some "access" }

abbrev listening : Socket
listening = handle_join_workspace 9 (handle_connection sample 50 (new_socket handshake))

-- The user is no member of any workspace 9: the handler does not ask.
listens : listening.rooms ≡ workspace_room 9 ∷ user_room 1 ∷ []
unfolding handle_connection handle_join_workspace
listens = refl

Reached-IsVerified_example : IsVerified sample handshake listening
Reached-IsVerified_example =
    Reached-IsVerified sample handshake listening
      (joined 9 (handle_connection sample 50 (new_socket handshake)) (connected 50))
