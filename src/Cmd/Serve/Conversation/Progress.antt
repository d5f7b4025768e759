-- ===== src/Cmd/Serve/Conversation/Progress.antt =====
-- handleClient of cmd/server/main.go: the conversation gives no bytes back to the connection, so the
-- main loop behind it comes to an end.
use mydrive.Base.{Option, none}
use mydrive.Base.Dict
use mydrive.Protocol.Json.{Codec}
use mydrive.Protocol.Codec.Parse.{Error}
use mydrive.Sync.Engine.{Engine}
use mydrive.Cmd.Serve.Conversation.{ClientEnd, ended, not_started}

abbrev end_of : ClientEnd → Option Error
end_of (ended e) = e
end_of (not_started o) = none
