-- ===== src/Lib.antt =====
-- The verification library of the dropbox server.
--
-- The program is a file server (server/server.go), a client with a command line
-- (client/client.go, lib/support/client), and remote calls between them (lib/support/rpc). The
-- server keeps the users' directories under userfs/<name>, every stored body once under
-- filestore/file<n>, and three tables: the users, the stored files with the number of their
-- owners, and the shares. A user's file is a symbolic link into filestore. A share is a second
-- link in userfs/<sharee>/Shared_with_me and a row with a permission. A login leaves a session
-- in a map in memory, and every command of a client brings the session's cookie. The remote
-- calls reach the handlers one at a time, under a mutex.
--
-- Files, and the code that they are about:
--   Server/Account   server/server.go: checkpath, checkUser, checkCookie, authenticateHandler,
--                    signupHandler; internal/types.go: AuthReturn
--   Server/Files     server/server.go: remove, uploadHelper, sharerUpload, getPerms, isSharedFile,
--                    uploadHandler, downloadHandler; internal/types.go: DownloadReturn
--   Server/Sharing   server/server.go: chpermHandler, shareHandler, unshareHandler
--   Server/Handlers  server/server.go: listHandler, mkdirHandler, removeHandler, pwdHandler, cdHandler,
--                    and the table of handlers in main; internal/types.go: DirEnt, ListReturn, PWDReturn
--   Server/Lifecycle server/server.go: main up to the registration of the handlers, finalizer
--   Server/Main      server/server.go: main as a whole
--   Server/Methods   the handlers as lib/support/rpc sees them: their types (internal/types.go) and the
--                    registrations of main (server/server.go), and how a request is written as a call
--   Rpc/Reflect      lib/support/rpc/reflect.go: validKinds, validType, validTypeHelper
--   Rpc/Dispatch     lib/support/rpc/reflect.go: handler, handleRequest, getHandler;
--                    lib/support/rpc/server.go: RegisterHandler, RegisterFinalizer, request
--   Rpc/Lock         lib/support/rpc/server.go: RunServer and request, with their mutex
--   Rpc/Start        lib/support/rpc/server.go: RunServer from its test of the finalizer to its return
--   Rpc/Pool         lib/support/rpc/internal/pool/pool.go, and the buffer of a response in handleRequest
--                    (lib/support/rpc/reflect.go)
--   Rpc/Remote       lib/support/rpc/client.go: ServerRemote, dial, Call
--   Client           client/client.go: the state and what the methods share; lib/support/client: errors
--   Client/Methods   client/client.go: the methods of Client
--   Client/Login     client/client.go: AskCreds, newUserDetails, displayoptions, the loop of main
--   Client/Shell     lib/support/client/cli.go: RunCLI, with the cases of its `switch` in Client/Shell/Lines
--                    and the loop in Client/Shell/Loop; lib/support/client/client.go: the interface Client,
--                    DirEntString
--   Client/Main      client/client.go: main; lib/support/rpc/client.go: NewServerRemote
--   Client/Copy      client/client.go: Client as an instance of that interface
--   Store            the state (server/server.go: Cookie, db, Cookiemap, filecount; the tables of
--                    README) and the ways in which the handlers use the database
--   Go               the monad of the handlers; FilePath and Text: what they use of filepath, strings
--                    and strconv; Base: shared names and lemmas on lists
-- A handler has the name of its Go function, in small letters. Where a function is long, a
-- block of it is a definition of its own, and its comment says which. The theorems stand in
-- Server/Run, Server/Session, Server/Confine, Server/Restart, Server/Login, Server/Permission,
-- Server/Upload, Server/Release, Server/Dedup, Server/Removal, Server/FreeName, Server/Share,
-- Server/Lend, Server/Renew, Server/Paths, Server/Signup and Server/Enrol, over the rules of
-- Go/Keeps, Go/Triple, Store/Rules, Store/Triples and Store/Reports; Server/Invariant carries
-- the invariant through the handlers, and Server/Frame what each request may change, with the
-- counter of stored files in Server/Counter and the sessions of a run in Server/Guard. Those
-- on the remote calls stand in Rpc/Reflect/Valid, Rpc/Register, Rpc/Preserve, Rpc/Lock/Safety,
-- Rpc/Lock/Serial, Rpc/Pool/Reuse, and in Registered, Serve, Call and Arbitrary of
-- Server/Methods; Server/Concurrent joins the handlers, the mutex and the finalizer. Those on
-- the client stand in Client/Told, Client/Transfer, Client/Home, Client/Dialogue, Client/Copy,
-- Client/Typed and Client/Quit, with the words of a line in Client/Shell/Words. Server/Tests
-- and Client/Tests apply the theorems to the file system in memory of Sample and the network
-- of Sample/Wire.
--
-- A handler is a function from the state to an outcome: a value and the next state, an early
-- return, `os.Exit`, or a loop that does not end. The operating system, the clock, the random
-- source and the hash are an argument, the record Host, over any type of states; what a
-- theorem needs of the file system is a hypothesis of it (Server/Upload: IsLawful). A string
-- is the list of its bytes. An access to the database fails where the schedule `faults` of the
-- state says so; `quiet` is a state without failures. Where the number of owners would go
-- below 0 it stays at 0, and both are on the same side of the one test that reads it.
--
-- The loop for a free name in shareHandler asks the file system again and again, so it has
-- fuel, and the outcome `hang` at its end. The fuel is an argument: each round tries another
-- name, so more fuel than there are taken names is enough. All other loops follow a list. The
-- counters are unbounded, where the code has an `int` of 64 bits that wraps around: the model
-- is the code as long as filecount and the numbers of owners are below 2 ^ 63. Server/Counter
-- says of which runs that holds of filecount.
--
-- A remote call passes through encoding/gob, net/rpc and reflect, which are arguments: Codec
-- encodes and decodes a value, Network dials and exchanges a request for a response, TypeTable
-- is the view of the types. IsFaithful, IsServing and IsTable say what is relied on: a value
-- is read back as it was written, an exchange is one run of `request` on the server, and the
-- types are finitely many and told apart. In Rpc/Dispatch a response is a value, as it is for
-- a client whose requests are the only ones; Rpc/Pool has the buffers that responses share
-- when another request is served before a response is sent. A buffer's room is a length that
-- `spare` adds to, and the pool gives a new buffer where it is asked to. In Rpc/Lock a call
-- that is inside has something left of its code, and runs it part by part on the state as it
-- stands, which other calls may have changed if the mutex lets them: a part may be any that
-- leaves the same outcomes to what is left. In Rpc/Start what is left is a function of the
-- state; the operating system and the schedule of failures change as a call begins, and not
-- between its parts. An exchange of Network may also never be answered, and the call then
-- hangs. A message is kept where a caller can read it, and `fmt.Errorf` of a reply, whose text
-- is taken as a format, is the argument `errorf`.
--
-- validTypeHelper has fuel, as has each loop of the log-in dialogue. A round of
-- validTypeHelper goes one type deeper with one type more in its map, so more fuel than there
-- are types is enough. The dialogue goes on for as long as its user answers wrongly, so no
-- fuel is enough for it, and `hang` says that a loop has not ended. The standard input is the
-- list of what each read of it gives, a line of a terminal or a block of a file; what a
-- function's reader has read too far is lost.
--
-- A start reads the counter as an `int` of 64 bits; the server's state has it only where it is
-- not negative, as the program writes it. With a minus sign in filecount.txt the code serves
-- all the same; Server/Main has that case and says nothing of its outcome.
--
-- In Client/Main the lines that a bufio.Scanner makes of the rest of the input are an
-- argument, and so is what net.Listen gives in Rpc/Start.
--
-- Not modelled: the messages of the server to stderr; the errors of RowsAffected, of rand.Read
-- (ignored by the code) and of Scan within a loop over rows; the SQL of the statements is
-- translated to operations on lists in the order of insertion. The fields of a command line
-- that is not ASCII, the tests, and the script that empties the tables.
pub mod Base
pub mod Text
pub mod FilePath
pub mod Go
pub mod Store
pub mod Server
pub mod Client
pub mod Rpc
pub mod Sample
