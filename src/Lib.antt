-- ===== src/Lib.antt =====
-- goxfer: files sent between two machines over an encrypted session, and over SFTP, FTPS and SCP.
-- This library models its wire format, its session, its transfers, its relay and tunnel, the uploads
-- to servers, and the command line.
--
-- The parts of the program, from the bottom up, and the files that model them:
--
-- internal/protocol/frame.go (Protocol.Frame): EncodeFrame is encode_frame and DecodeFrame is
-- decode_frame, over the bytes that are still to be read; io.ReadFull is read_full.
-- internal/protocol/message.go (Protocol.Message): Message is a record (its field Type is called
-- kind), ValidateMessage is validate_message, EncodeMessage and DecodeMessage are encode_message
-- and decode_message. encoding/json is the parameter JsonText of Json: a printer and a parser of
-- objects, of which the law used is that printed UTF-8 objects are parsed back. Which fields are
-- written and how a read field is stored is modelled by the tags (marshal_message,
-- set_message_field). Json.Plain is an instance for the examples.
-- internal/session/session.go (Session): SecureSession is the record Session, its connection a
-- record of bytes to read, bytes written and the outcomes of the next writes. SendMessage and
-- ReceiveMessage are send_message and receive_message. The noise library's cipher states are the
-- parameter CipherSuite: encryption and decryption step a state, states of the same nonce and key
-- are Paired, and a cipher text is 16 bytes longer. Session.Toy is an instance for the examples.
-- newSession and its runHandshake are new_session and run_handshake of Session.Handshake, over the
-- parameter NoiseHandshake for the library's handshake states, whose messages have at most 65535
-- bytes. What the XX pattern promises of them is IsXx of Session.Handshake.Agreement.
-- internal/crypto/identity.go (Crypto): Validate, Fingerprint and equalBytes are validate,
-- fingerprint and equal_bytes; an Ed25519 private key ends with its public key, and the public key
-- of an X25519 private key is a parameter.
-- internal/transfer/p2p.go (Transfer): World is what this file works on: files, directories, the
-- names that os.CreateTemp tries, entropy, the messages to come and those sent, and the faults, by
-- which each system call can fail for a reason outside the program. send and receive stand for the
-- session's SendMessage and ReceiveMessage; that a session carries messages in order is what
-- Session.Channel is about. Transfer.Send has sendSingleFile, sendDirectory and sendChunks;
-- Transfer.Receive has receiveOneFile in the parts open_download, acknowledge, receive_loop (with
-- on_chunk and on_complete) and store_download, receiveFiles, and the end of P2PReceive
-- (receive_into). Transfer.Resume has the state file, the partial file and the ids of transfers.
-- Transfer.Extract has extractTarGz, with gzip and tar as the parameter untar, and Transfer.Archive
-- has the walk of sendDirectory's goroutine: archive_items makes the items of the archive, where a
-- symbolic link or a device has a header without a size and is read through. SHA-256 is a
-- parameter function from bytes to bytes; what is used of it is that a digest has 32 bytes.
-- Transfer.Exchange puts a sender and a receiver together.
-- internal/tunnel/relay.go (Tunnel.Relay): handleRelayConn as the relation Step between states of the
-- relay, which hold the pending map, where each connection's goroutine stands, and the senders'
-- channels. Connections are numbers. Each access under the lock is a step; a write that fails and
-- a timeout are steps of their own. Reachable is what a run from the empty map can come to.
-- internal/tunnel/relay.go, the other end (Tunnel.Client): relayWrite and relayRead are relay_write and
-- relay_read, over the bytes of a connection and JsonText; ConnectAsSender, WaitForReceiver and
-- ConnectAsReceiver are connect_as_sender, wait_for_receiver and connect_as_receiver.
-- internal/tunnel/bore.go (Tunnel.Bore): decodeServerMsg is decode_server_msg, over the parameter
-- ServerJson, which reads a JSON value; Start, forwardConnection and pipe are start,
-- forward_connection and pipe. Tunnel.Bore.Loop has runControlLoop: the loop, its reading goroutine
-- their two channels and whether the connection is closed are a state, and Step lets them go on in
-- any order; what a reader whose connection was closed has not read is kept.
-- The net package (Net): a listener or a connection is a number; Net has what was opened and not
-- closed, the bytes of each connection, and what the coming calls will do. Net.Address has
-- SplitHostPort, JoinHostPort and directReceiverAddr of p2p.go. Bind, Accept, Dial, NewSession and
-- Close of internal/session/session.go are in Session.Connect.
-- internal/transfer/p2p.go, the outer part (Setup): P2PSend and P2PReceive are p2p_send and
-- p2p_receive, with a deferred Close as finally. The deferred cancel of the tunnel's context only
-- notes (cancel_loop) that the control loop is to end, which closes its connection by itself. What
-- goes over the session is a parameter, and the commands shown for the receiver are kept in Net.
-- internal/transfer/ftps.go (Remote.Ftps): transferFileWithRetry is transfer_file_with_retry; the
-- server, and how the library's calls will go, are the record Ftp.
-- internal/transfer/sftp.go (Remote.Sftp): sftp_transfer of Remote.Sftp.Whole logs in and walks, upload_file is a
-- goroutine's loop with attempt for a round, over the record Sftp. Remote.Sftp.Permits has the
-- goroutines that run side by side and the semaphore: Step lets any of them go on.
-- internal/transfer/scp.go (Remote.Scp): SCPTransfer is scp_transfer; the commands that ran are kept.
-- Remote.Scp.Options reads their arguments as getopt does; which options take a value is a parameter.
-- cmd/main.go (Cli): main is a function from the arguments to a Command, the call it makes or the
-- exit code; Cli.Flags reads flags as the flag package does, Cli.Numbers their values. The command
-- that printReceiverCommand prints is in Cli.Receiver.
-- The standard library's path/filepath (Paths), encoding/hex and decimal numbers (Hex), UTF-8
-- (Json.Utf8), maps and byte strings (Base) are modelled as the program uses them, on Unix.
--
-- Numbers: int and int64 are the signed integers of Base.Int; where the code adds or multiplies
-- them the result is wrapped to 64 bits (inc64, scale64). Bytes and lengths are natural numbers.
--
-- Fuel: receive_loop and receive_files are given one unit more than there are messages to come;
-- each round takes a message. file_reads is given one unit for each byte of the file, and each read
-- takes at least one byte. decimal is given one unit more than the number.
--
-- The rounds of an upload are maxRetries + 1, with the wrap-around of a 64-bit integer, and no round if
-- that is negative. Remote.Sftp.Permits takes the number of rounds as it is, without the wrap-around:
-- it is about numbers of retries below 2^63 - 1.
--
-- Not modelled: the making of keys and signatures of internal/crypto, which only calls libraries; the
-- accepting loop of the relay; what ssh and scp do with their options; printing other than the
-- receiver's command and the notices of an FTPS transfer, progress bars and formatBytes, which
-- divides floating-point numbers; file modes; the bytes of gzip and tar: send_directory is given the
-- reads that come out of the pipe, and archive_items and extract_items meet at the items.
pub mod Base
pub mod Cli
pub mod Crypto
pub mod Hex
pub mod Json
pub mod Net
pub mod Paths
pub mod Protocol
pub mod Remote
pub mod Session
pub mod Setup
pub mod Transfer
pub mod Tunnel
