-- ===== src/Lib.antt =====
-- CppGram, a client framework for Telegram: its own MTProto stack, and what surrounds the calls of TDLib.
--
-- The program. A client of MTProto (MtprotoClient) has a session, a transport codec and a TCP
-- connection. A payload, which the TL writer has made, is put by the session into an envelope with
-- a message id and a sequence number (Session), sealed with AES in IGE mode under keys derived from
-- the authorisation key (Crypto), framed by one of three codecs (Transport), and written to a
-- socket (Network). What comes back goes through the same layers in the other direction. Beside
-- that chain stand a pool of accounts, a storage of peers, a pipeline of middleware, a manager of
-- plugins, and the classification of an RPC's errors. The other backend, ClientImpl, receives
-- updates from TDLib on a dispatcher thread, keeps caches of users and chats, follows the
-- authorisation, and hands messages and button presses past the middleware to handlers with
-- filters, at once or through a pool of threads. Rich messages are built from blocks and written as
-- JSON. The models use each other as the classes do.
--
-- Files and sources, from the repository's root:
--   Common          shared helpers: lists, bytes, bits, maps by association lists, exceptions
--   Tl              include/cppgram/tl.hpp, src/core/tl.cpp: TLWriter and TLReader
--   Transport       include/cppgram/transport.hpp, src/core/transport.cpp: the codecs; Transport.Crc
--                   is generate_crc32_table and compute_crc32
--   Crypto          include/cppgram/crypto.hpp, src/core/crypto.cpp: CryptoUtils
--   Session         include/cppgram/session.hpp, src/core/session.cpp
--   AccountPool     include/cppgram/account_pool.hpp, src/core/account_pool.cpp
--   Network         include/cppgram/network.hpp, src/core/network.cpp
--   Storage         include/cppgram/storage.hpp: MemorySessionStorage
--   Middleware      include/cppgram/middleware.hpp
--   Plugin          include/cppgram/plugin.hpp, src/core/plugin.cpp: PluginManager
--   MtprotoClient   include/cppgram/mtproto_client.hpp, src/core/mtproto_client.cpp
--   Errors          include/cppgram/errors.hpp
--   ThreadPool      include/cppgram/thread_pool.hpp: steps of workers, callers and a waiting thread
--   Json            escape_json_string of src/core/rich_message.cpp and src/backend/client.cpp; a data
--                   type of JSON values with its printer, and a reader that is written from the grammar
--   RichMessage     include/cppgram/rich_message.hpp, src/core/rich_message.cpp
--   Keyboard        include/cppgram/keyboard.hpp, and reply_markup_to_json of src/backend/client.cpp
--   Obfuscated      include/cppgram/obfuscated.hpp, src/core/obfuscated.cpp: ObfuscatedCodec, FakeTls
--   Cli             include/cppgram/cli.hpp, src/core/cli.cpp: InteractiveCLI
--   Message         the types of include/cppgram/message.hpp and user.hpp that filters read
--   Filters         include/cppgram/filters.hpp, src/core/filters.cpp
--   Client          src/backend/client.cpp, include/cppgram/handlers.hpp: ClientImpl, its dispatcher,
--                   authorisation states and handlers; Client.Adapter is src/backend/tdlib_adapter.hpp
-- A definition has the name of the function that it models. A component's own file has the state, as
-- a record, and the operations, which take the state and return it; the files below it have the
-- proofs, and Tests has runs on concrete inputs.
--
-- Conventions. A byte is a number, which is below 256 where a statement needs it. A w-bit integer is
-- its pattern, a number below 2 ^ w, and a sum or a product of the code that can wrap is followed by
-- the remainder. A signed integer is its pattern too. A string is the list of its bytes. A function
-- that throws returns an Outcome with the state that the exception leaves behind. A read beyond a
-- buffer is a result of its own, out_of_bounds. The sizes of buffers (size_t) do not wrap.
--
-- The environment. OpenSSL is the record Crypto.Openssl of functions, with the laws that the proofs
-- need: decryption of a block undoes encryption, a digest has its length, a CTR stream of fewer than
-- 2 ^ 31 bytes is undone by itself. Beyond that the length that aes_ctr_encrypt passes on, an int, is
-- not the length of its buffer, and what OpenSSL does with it is left to the record. The random generators are a record of functions, the clock's readings are arguments, and
-- so are the answers of the socket's calls: a list of counts for send, a list of chunks for recv.
-- A Client in the pool, the hooks of a plugin and the functions of a pipeline are parameters.
--
-- Fuel. The loop that draws the obfuscated payload runs on the list of the draws. The decoder's
-- loop runs on the length of its buffer and one more, which is enough because each turn takes at
-- least one byte or ends the loop; running out would be the failure no_progress. All other
-- recursions are structural.
--
-- The objects of TDLib and their conversions are the record Client.Td of types and functions. What
-- the user gives the client acts upon a world, which it reads and changes: a filter accepts,
-- declines or throws; a callback returns, throws a std::exception, or throws something else; a
-- middleware has the context of its event besides; the callbacks for a code and a password answer or
-- throw. A message handler with an empty filter throws, a handler of button presses with one accepts
-- everything, and handlers of deleted messages have none.
--
-- Not modelled. The methods of src/backend that build one request of TDLib each, and the
-- conversions of its objects: TDLib is not in the repository. The SQLite storage, whose behaviour
-- is the database's. The set-up of a socket, an answer of the environment; receive_bytes,
-- get_all_dcs and the moves of a connection.
-- Threads: the thread pool is a system of steps that interleave in any order. Of the other
-- components the calls come one after the other, and each is one step. Callbacks do not register
-- handlers. Metrics, coroutines and logging; the methods of messages and chats, which pass on to
-- the client; the shell's /help. The accessors that only copy a member.
pub mod Common
pub mod Tl
pub mod Transport
pub mod Crypto
pub mod Session
pub mod AccountPool
pub mod Network
pub mod Storage
pub mod Middleware
pub mod Plugin
pub mod MtprotoClient
pub mod Errors
pub mod ThreadPool
pub mod Cli
pub mod Obfuscated
pub mod Json
pub mod RichMessage
pub mod Client
pub mod Filters
pub mod Keyboard
pub mod Message
