-- ===== src/Mcp/Channel.antt =====
-- mcp_stdio_channel.py: McpStdioChannel, which sends a message and waits for one over the pipes of a process.
pub mod Ends
pub mod Writes
use responsibility_pathway_r.Prelude.{
  ℕ, zero, suc, String, Bool, true, false, not, ◌&&◌, ◌||◌, Option, none, some, List, [], ◌∷◌, ◌==◌,
  leb, ltb, length, if◌then◌else◌,
}
use responsibility_pathway_r.Errors.{Error, Result, ok, err, value_error, other_error}
use responsibility_pathway_r.Exec.{Exec, pure, raise, lift, try, require, ◌>>=◌, ◌>>◌}
use responsibility_pathway_r.Value.{Value, Fields, ℤ, pos, negsuc, int}
use responsibility_pathway_r.Framing.{Bytes, Codec, is_nil, feed, finish, encode}
use responsibility_pathway_r.Rpc.{transport_error}
use responsibility_pathway_r.Mcp.Diagnostics.{Diagnostics}
use responsibility_pathway_r.Mcp.Diagnostics as D

-- McpStdioEvent
pub record StdioEvent : Type 0 where
  pub stream : String
  pub event_data : Bytes
  pub eof : Bool

-- McpStdioEvent.__post_init__
unfoldable pub check_event : StdioEvent → Result StdioEvent
unfolding is_nil
check_event e =
    if not (e.stream == "stdout" || e.stream == "stderr")
    then err value_error
    else if e.eof && not (is_nil e.event_data)
    then err value_error
    else if not e.eof && is_nil e.event_data
    then err value_error
    else ok e

-- McpStdioDuplex, in a state of the type `T`. What `write_stdin` returns may be any value, and `none` is
-- an event that is not an McpStdioEvent.
pub record Duplex (T : Type 0) : Type 0 where
  pub write_stdin : Bytes → Exec T Value
  pub read_event : Exec T (Option StdioEvent)

-- McpStdioChannel, beside the state of its duplex
pub record Channel (T : Type 0) : Type 0 where
  pub duplex : T
  pub codec : Codec
  pub diagnostics : Diagnostics
  pub stdout_eof : Bool
  pub stderr_eof : Bool

-- `payload[n:]`
unfoldable pub drop : ℕ → Bytes → Bytes
drop zero bs = bs
drop (suc n) [] = []
drop (suc n) (b ∷ bs) = drop n bs

-- How many bytes the writer says it took, of those that remain.
unfoldable pub count_of : Bytes → Value → Result ℕ
count_of remaining (int (pos n)) =
    if leb n 0 || ltb (length remaining) n then err transport_error else ok n
count_of remaining (int (negsuc n)) = err transport_error
count_of remaining _ = err transport_error

-- The limits of the channel, and the arguments of its codec.
pub record Settings : Type 0 where
  pub max_message_bytes : ℕ
  pub max_diagnostics_bytes : ℕ
  pub max_events_per_exchange : ℕ
  pub parse : Bytes → Result Value
  pub render : Fields → Result Bytes

abbrev pub out_of_fuel : Error
out_of_fuel = other_error "out of fuel"

-- `is_passed_on` is `isinstance(exc, (McpTransportError, OSError))`.
module _ {T : Type 0} (settings : Settings) (d : Duplex T) (is_passed_on : Error → Bool) where
  -- An operation of the duplex, of the channel
  unfoldable pub on_duplex : {A : Type 0} → Exec T A → Exec (Channel T) A
  on_duplex m s = (let r = m s.duplex in (r.0, record s { duplex = r.1 }))

  -- An operation of the codec, of the channel
  unfoldable pub on_codec : {A : Type 0} → Exec Codec A → Exec (Channel T) A
  on_codec m s = (let r = m s.codec in (r.0, record s { codec = r.1 }))

  -- The handlers of the exceptions of the duplex
  unfoldable pub translated : {A : Type 0} → Exec (Channel T) A → Exec (Channel T) A
  translated m = try m pure (λ e. raise (if is_passed_on e then e else transport_error))

  -- The loop of `_write_message`
  unfoldable pub write_from : Bytes → ℕ → Exec (Channel T) (Unit {0})
  unfolding on_duplex translated count_of drop
  write_from [] fuel = pure tt
  write_from (b ∷ bs) zero = raise out_of_fuel
  write_from (b ∷ bs) (suc fuel) = do
    written ← translated (on_duplex (d.write_stdin (b ∷ bs)))
    n ← lift (count_of (b ∷ bs) written)
    write_from (drop n (b ∷ bs)) fuel

  -- `_write_message`
  unfoldable pub write_message : Fields → Exec (Channel T) (Unit {0})
  unfolding on_codec write_from
  write_message message = do
    payload ← on_codec (encode settings.max_message_bytes settings.parse settings.render message)
    write_from payload (length payload)

  is_event : Option StdioEvent → Exec (Channel T) StdioEvent
  is_event none = raise transport_error
  is_event (some e) = pure e

  -- `_read_event`
  unfoldable pub read_event : Exec (Channel T) StdioEvent
  unfolding on_duplex translated is_event
  read_event = do e ← translated (on_duplex d.read_event); is_event e

  -- `_handle_stderr`
  unfoldable pub handle_stderr : StdioEvent → Exec (Channel T) (Unit {0})
  unfolding D.feed
  handle_stderr e s =
      if e.eof
      then (ok tt, record s { stderr_eof = true })
      else if s.stderr_eof
      then (err transport_error, s)
      else (
        ok tt,
        record s { diagnostics = D.feed settings.max_diagnostics_bytes e.event_data s.diagnostics },
      )

  -- `_require_open_stdout`
  unfoldable pub require_open_stdout : Exec (Channel T) (Unit {0})
  require_open_stdout s = if s.stdout_eof then (err transport_error, s) else (ok tt, s)

  -- The messages of one event: none, then the loop goes on; one, the answer; or too many.
  answer_of : List Fields → Exec (Channel T) Fields → Exec (Channel T) Fields
  answer_of [] later = later
  answer_of (m ∷ []) later = pure m
  answer_of (m ∷ m' ∷ ms) later = raise transport_error

  close_stdout : Exec (Channel T) (Unit {0})
  close_stdout s = (ok tt, record s { stdout_eof = true })

  -- One pass of the loop of `exchange`; `later` are the passes after it.
  unfoldable pub handle_event : StdioEvent → Exec (Channel T) Fields → Exec (Channel T) Fields
  unfolding handle_stderr close_stdout on_codec answer_of
  handle_event e later =
      if e.stream == "stderr"
      then handle_stderr e >> later
      else if e.eof
      then close_stdout
        >> on_codec (finish settings.max_message_bytes settings.parse settings.render)
        >> raise transport_error
      else do
        messages ←
            on_codec (feed settings.max_message_bytes settings.parse settings.render e.event_data)
        answer_of messages later

  -- The loop of `exchange`, with the number of events that are left
  unfoldable pub receive : ℕ → Exec (Channel T) Fields
  unfolding read_event handle_event
  receive zero = raise transport_error
  receive (suc n) = do e ← read_event; handle_event e (receive n)

  -- `exchange`
  unfoldable pub exchange : Fields → Exec (Channel T) Fields
  unfolding require_open_stdout write_message receive
  exchange message = do
    require_open_stdout
    write_message message
    receive settings.max_events_per_exchange

  -- `send`
  unfoldable pub send : Fields → Exec (Channel T) (Unit {0})
  unfolding require_open_stdout write_message
  send message = do require_open_stdout; write_message message
